-- ===== src/Dispatch/Words.antt =====
-- server.cpp: the names of the commands and the texts of errors that the dispatch uses.
use redis_lite.Base.{[], ◌∷◌}
use redis_lite.Bytes.{Str}

-- "expect float", "expect zset", "expect fp number", "expect int", "unknown command."
abbrev pub expect_float : Str
expect_float = 101 ∷ 120 ∷ 112 ∷ 101 ∷ 99 ∷ 116 ∷ 32 ∷ 102 ∷ 108 ∷ 111 ∷ 97 ∷ 116 ∷ []

abbrev pub expect_zset_text : Str
expect_zset_text = 101 ∷ 120 ∷ 112 ∷ 101 ∷ 99 ∷ 116 ∷ 32 ∷ 122 ∷ 115 ∷ 101 ∷ 116 ∷ []

abbrev pub expect_fp_number : Str
expect_fp_number =
    101 ∷ 120 ∷ 112 ∷ 101 ∷ 99 ∷ 116 ∷ 32 ∷ 102 ∷ 112 ∷ 32 ∷ 110 ∷ 117 ∷ 109 ∷ 98 ∷ 101 ∷ 114 ∷ []

abbrev pub expect_int : Str
expect_int = 101 ∷ 120 ∷ 112 ∷ 101 ∷ 99 ∷ 116 ∷ 32 ∷ 105 ∷ 110 ∷ 116 ∷ []

abbrev pub unknown_command : Str
unknown_command =
    117 ∷ 110 ∷ 107 ∷ 110 ∷ 111 ∷ 119 ∷ 110 ∷ 32 ∷ 99 ∷ 111 ∷ 109 ∷ 109 ∷ 97 ∷ 110 ∷ 100 ∷ 46 ∷ []

-- The names of the commands.
abbrev pub name_keys : Str
name_keys = 107 ∷ 101 ∷ 121 ∷ 115 ∷ []

abbrev pub name_get : Str
name_get = 103 ∷ 101 ∷ 116 ∷ []

abbrev pub name_del : Str
name_del = 100 ∷ 101 ∷ 108 ∷ []

abbrev pub name_pttl : Str
name_pttl = 112 ∷ 116 ∷ 116 ∷ 108 ∷ []

abbrev pub name_set : Str
name_set = 115 ∷ 101 ∷ 116 ∷ []

abbrev pub name_zrem : Str
name_zrem = 122 ∷ 114 ∷ 101 ∷ 109 ∷ []

abbrev pub name_zscore : Str
name_zscore = 122 ∷ 115 ∷ 99 ∷ 111 ∷ 114 ∷ 101 ∷ []

abbrev pub name_pexpire : Str
name_pexpire = 112 ∷ 101 ∷ 120 ∷ 112 ∷ 105 ∷ 114 ∷ 101 ∷ []

abbrev pub name_zadd : Str
name_zadd = 122 ∷ 97 ∷ 100 ∷ 100 ∷ []

abbrev pub name_zquery : Str
name_zquery = 122 ∷ 113 ∷ 117 ∷ 101 ∷ 114 ∷ 121 ∷ []
