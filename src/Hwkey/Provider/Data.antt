-- ===== src/Hwkey/Provider/Data.antt =====
-- The constants of hwcrypto/hwkey_srv_fake_provider.c.
use trusty_app_sample.Common.{List, [], ℕ, ◌∷◌}

abbrev pub fake_device_key : List ℕ
fake_device_key =
    116 ∷ 104 ∷ 105 ∷ 115 ∷ 32 ∷ 105 ∷ 115 ∷ 32 ∷ 97 ∷ 32 ∷ 102 ∷ 97 ∷ 107 ∷ 101 ∷ 32 ∷ 117 ∷ 110
    ∷ 105 ∷ 113 ∷ 117 ∷ 101 ∷ 32 ∷ 100 ∷ 101 ∷ 118 ∷ 105 ∷ 99 ∷ 101 ∷ 32 ∷ 107 ∷ 101 ∷ 121 ∷ []

abbrev pub unittest_key32 : List ℕ
unittest_key32 =
    117 ∷ 110 ∷ 105 ∷ 116 ∷ 116 ∷ 101 ∷ 115 ∷ 116 ∷ 107 ∷ 101 ∷ 121 ∷ 115 ∷ 108 ∷ 111 ∷ 116 ∷ 117
    ∷ 110 ∷ 105 ∷ 116 ∷ 116 ∷ 101 ∷ 115 ∷ 116 ∷ 107 ∷ 101 ∷ 121 ∷ 115 ∷ 108 ∷ 111 ∷ 116 ∷ 117 ∷ 110
    ∷ []

abbrev pub unittest_encrypted_key32 : List ℕ
unittest_encrypted_key32 =
    0 ∷ 0 ∷ 0 ∷ 0 ∷ 0 ∷ 0 ∷ 0 ∷ 0 ∷ 0 ∷ 0 ∷ 0 ∷ 0 ∷ 0 ∷ 0 ∷ 0 ∷ 0 ∷ 62 ∷ 43 ∷ 2 ∷ 84 ∷ 84 ∷ 140
    ∷ 167 ∷ 184 ∷ 163 ∷ 250 ∷ 245 ∷ 208 ∷ 188 ∷ 29 ∷ 64 ∷ 17 ∷ 172 ∷ 104 ∷ 187 ∷ 240 ∷ 85 ∷ 163
    ∷ 197 ∷ 73 ∷ 62 ∷ 119 ∷ 74 ∷ 139 ∷ 63 ∷ 51 ∷ 86 ∷ 7 ∷ []

abbrev pub rpmb_salt : List ℕ
rpmb_salt =
    66 ∷ 24 ∷ 169 ∷ 242 ∷ 246 ∷ 177 ∷ 245 ∷ 53 ∷ 6 ∷ 55 ∷ 159 ∷ 186 ∷ 204 ∷ 26 ∷ 201 ∷ 54 ∷ 244
    ∷ 131 ∷ 4 ∷ 212 ∷ 241 ∷ 101 ∷ 145 ∷ 50 ∷ 166 ∷ 174 ∷ 218 ∷ 39 ∷ 77 ∷ 33 ∷ 219 ∷ 64 ∷ []

abbrev pub kak_salt : List ℕ
kak_salt =
    112 ∷ 196 ∷ 124 ∷ 250 ∷ 44 ∷ 177 ∷ 238 ∷ 220 ∷ 165 ∷ 223 ∷ 188 ∷ 141 ∷ 212 ∷ 247 ∷ 13 ∷ 66 ∷ 147
    ∷ 59 ∷ 127 ∷ 123 ∷ 194 ∷ 158 ∷ 109 ∷ 165 ∷ 178 ∷ 146 ∷ 122 ∷ 33 ∷ 142 ∷ 201 ∷ 230 ∷ 154 ∷ []

-- The vectors of the self test.
abbrev pub ikm : List ℕ
ikm =
    11 ∷ 11 ∷ 11 ∷ 11 ∷ 11 ∷ 11 ∷ 11 ∷ 11 ∷ 11 ∷ 11 ∷ 11 ∷ 11 ∷ 11 ∷ 11 ∷ 11 ∷ 11 ∷ 11 ∷ 11 ∷ 11
    ∷ 11 ∷ 11 ∷ 11 ∷ []

abbrev pub salt : List ℕ
salt = 0 ∷ 1 ∷ 2 ∷ 3 ∷ 4 ∷ 5 ∷ 6 ∷ 7 ∷ 8 ∷ 9 ∷ 10 ∷ 11 ∷ 12 ∷ []

abbrev pub info : List ℕ
info = 240 ∷ 241 ∷ 242 ∷ 243 ∷ 244 ∷ 245 ∷ 246 ∷ 247 ∷ 248 ∷ 249 ∷ []

abbrev pub exp_okm : List ℕ
exp_okm =
    60 ∷ 178 ∷ 95 ∷ 37 ∷ 250 ∷ 172 ∷ 213 ∷ 122 ∷ 144 ∷ 67 ∷ 79 ∷ 100 ∷ 208 ∷ 54 ∷ 47 ∷ 42 ∷ 45 ∷ 45
    ∷ 10 ∷ 144 ∷ 207 ∷ 26 ∷ 90 ∷ 76 ∷ 93 ∷ 176 ∷ 45 ∷ 86 ∷ 236 ∷ 196 ∷ 197 ∷ 191 ∷ 52 ∷ 0 ∷ 114 ∷ 8
    ∷ 213 ∷ 184 ∷ 135 ∷ 24 ∷ 88 ∷ 101 ∷ []

abbrev pub rpmb_ss_auth_key_id : List ℕ
rpmb_ss_auth_key_id =
    99 ∷ 111 ∷ 109 ∷ 46 ∷ 97 ∷ 110 ∷ 100 ∷ 114 ∷ 111 ∷ 105 ∷ 100 ∷ 46 ∷ 116 ∷ 114 ∷ 117 ∷ 115 ∷ 116
    ∷ 121 ∷ 46 ∷ 115 ∷ 116 ∷ 111 ∷ 114 ∷ 97 ∷ 103 ∷ 101 ∷ 95 ∷ 97 ∷ 117 ∷ 116 ∷ 104 ∷ 46 ∷ 114 ∷ 112
    ∷ 109 ∷ 98 ∷ []

abbrev pub km_kak_id : List ℕ
km_kak_id =
    99 ∷ 111 ∷ 109 ∷ 46 ∷ 97 ∷ 110 ∷ 100 ∷ 114 ∷ 111 ∷ 105 ∷ 100 ∷ 46 ∷ 116 ∷ 114 ∷ 117 ∷ 115 ∷ 116
    ∷ 121 ∷ 46 ∷ 107 ∷ 101 ∷ 121 ∷ 109 ∷ 105 ∷ 110 ∷ 116 ∷ 46 ∷ 107 ∷ 97 ∷ 107 ∷ []

abbrev pub key32_id : List ℕ
key32_id =
    99 ∷ 111 ∷ 109 ∷ 46 ∷ 97 ∷ 110 ∷ 100 ∷ 114 ∷ 111 ∷ 105 ∷ 100 ∷ 46 ∷ 116 ∷ 114 ∷ 117 ∷ 115 ∷ 116
    ∷ 121 ∷ 46 ∷ 104 ∷ 119 ∷ 99 ∷ 114 ∷ 121 ∷ 112 ∷ 116 ∷ 111 ∷ 46 ∷ 117 ∷ 110 ∷ 105 ∷ 116 ∷ 116
    ∷ 101 ∷ 115 ∷ 116 ∷ 46 ∷ 107 ∷ 101 ∷ 121 ∷ 51 ∷ 50 ∷ []

abbrev pub derived_key32_id : List ℕ
derived_key32_id =
    99 ∷ 111 ∷ 109 ∷ 46 ∷ 97 ∷ 110 ∷ 100 ∷ 114 ∷ 111 ∷ 105 ∷ 100 ∷ 46 ∷ 116 ∷ 114 ∷ 117 ∷ 115 ∷ 116
    ∷ 121 ∷ 46 ∷ 104 ∷ 119 ∷ 99 ∷ 114 ∷ 121 ∷ 112 ∷ 116 ∷ 111 ∷ 46 ∷ 117 ∷ 110 ∷ 105 ∷ 116 ∷ 116
    ∷ 101 ∷ 115 ∷ 116 ∷ 46 ∷ 100 ∷ 101 ∷ 114 ∷ 105 ∷ 118 ∷ 101 ∷ 100 ∷ 95 ∷ 107 ∷ 101 ∷ 121 ∷ 51
    ∷ 50 ∷ []

abbrev pub opaque_handle_id : List ℕ
opaque_handle_id =
    99 ∷ 111 ∷ 109 ∷ 46 ∷ 97 ∷ 110 ∷ 100 ∷ 114 ∷ 111 ∷ 105 ∷ 100 ∷ 46 ∷ 116 ∷ 114 ∷ 117 ∷ 115 ∷ 116
    ∷ 121 ∷ 46 ∷ 104 ∷ 119 ∷ 99 ∷ 114 ∷ 121 ∷ 112 ∷ 116 ∷ 111 ∷ 46 ∷ 117 ∷ 110 ∷ 105 ∷ 116 ∷ 116
    ∷ 101 ∷ 115 ∷ 116 ∷ 46 ∷ 111 ∷ 112 ∷ 97 ∷ 113 ∷ 117 ∷ 101 ∷ 95 ∷ 104 ∷ 97 ∷ 110 ∷ 100 ∷ 108
    ∷ 101 ∷ []

abbrev pub opaque_handle2_id : List ℕ
opaque_handle2_id =
    99 ∷ 111 ∷ 109 ∷ 46 ∷ 97 ∷ 110 ∷ 100 ∷ 114 ∷ 111 ∷ 105 ∷ 100 ∷ 46 ∷ 116 ∷ 114 ∷ 117 ∷ 115 ∷ 116
    ∷ 121 ∷ 46 ∷ 104 ∷ 119 ∷ 99 ∷ 114 ∷ 121 ∷ 112 ∷ 116 ∷ 111 ∷ 46 ∷ 117 ∷ 110 ∷ 105 ∷ 116 ∷ 116
    ∷ 101 ∷ 115 ∷ 116 ∷ 46 ∷ 111 ∷ 112 ∷ 97 ∷ 113 ∷ 117 ∷ 101 ∷ 95 ∷ 104 ∷ 97 ∷ 110 ∷ 100 ∷ 108
    ∷ 101 ∷ 50 ∷ []

abbrev pub opaque_handle_noaccess_id : List ℕ
opaque_handle_noaccess_id =
    99 ∷ 111 ∷ 109 ∷ 46 ∷ 97 ∷ 110 ∷ 100 ∷ 114 ∷ 111 ∷ 105 ∷ 100 ∷ 46 ∷ 116 ∷ 114 ∷ 117 ∷ 115 ∷ 116
    ∷ 121 ∷ 46 ∷ 104 ∷ 119 ∷ 99 ∷ 114 ∷ 121 ∷ 112 ∷ 116 ∷ 111 ∷ 46 ∷ 117 ∷ 110 ∷ 105 ∷ 116 ∷ 116
    ∷ 101 ∷ 115 ∷ 116 ∷ 46 ∷ 111 ∷ 112 ∷ 97 ∷ 113 ∷ 117 ∷ 101 ∷ 95 ∷ 104 ∷ 97 ∷ 110 ∷ 100 ∷ 108
    ∷ 101 ∷ 95 ∷ 110 ∷ 111 ∷ 97 ∷ 99 ∷ 99 ∷ 101 ∷ 115 ∷ 115 ∷ []

abbrev pub opaque_derived_id : List ℕ
opaque_derived_id =
    99 ∷ 111 ∷ 109 ∷ 46 ∷ 97 ∷ 110 ∷ 100 ∷ 114 ∷ 111 ∷ 105 ∷ 100 ∷ 46 ∷ 116 ∷ 114 ∷ 117 ∷ 115 ∷ 116
    ∷ 121 ∷ 46 ∷ 104 ∷ 119 ∷ 99 ∷ 114 ∷ 121 ∷ 112 ∷ 116 ∷ 111 ∷ 46 ∷ 117 ∷ 110 ∷ 105 ∷ 116 ∷ 116
    ∷ 101 ∷ 115 ∷ 116 ∷ 46 ∷ 111 ∷ 112 ∷ 97 ∷ 113 ∷ 117 ∷ 101 ∷ 95 ∷ 100 ∷ 101 ∷ 114 ∷ 105 ∷ 118
    ∷ 101 ∷ 100 ∷ []

abbrev pub hwaes_opaque_handle_id : List ℕ
hwaes_opaque_handle_id =
    99 ∷ 111 ∷ 109 ∷ 46 ∷ 97 ∷ 110 ∷ 100 ∷ 114 ∷ 111 ∷ 105 ∷ 100 ∷ 46 ∷ 116 ∷ 114 ∷ 117 ∷ 115 ∷ 116
    ∷ 121 ∷ 46 ∷ 104 ∷ 119 ∷ 97 ∷ 101 ∷ 115 ∷ 46 ∷ 117 ∷ 110 ∷ 105 ∷ 116 ∷ 116 ∷ 101 ∷ 115 ∷ 116
    ∷ 46 ∷ 111 ∷ 112 ∷ 97 ∷ 113 ∷ 117 ∷ 101 ∷ 95 ∷ 104 ∷ 97 ∷ 110 ∷ 100 ∷ 108 ∷ 101 ∷ []

abbrev pub sign_key_0_id : List ℕ
sign_key_0_id =
    99 ∷ 111 ∷ 109 ∷ 46 ∷ 97 ∷ 110 ∷ 100 ∷ 114 ∷ 111 ∷ 105 ∷ 100 ∷ 46 ∷ 116 ∷ 114 ∷ 117 ∷ 115 ∷ 116
    ∷ 121 ∷ 46 ∷ 97 ∷ 112 ∷ 112 ∷ 108 ∷ 111 ∷ 97 ∷ 100 ∷ 101 ∷ 114 ∷ 46 ∷ 115 ∷ 105 ∷ 103 ∷ 110 ∷ 46
    ∷ 107 ∷ 101 ∷ 121 ∷ 46 ∷ 48 ∷ []

abbrev pub sign_key_1_id : List ℕ
sign_key_1_id =
    99 ∷ 111 ∷ 109 ∷ 46 ∷ 97 ∷ 110 ∷ 100 ∷ 114 ∷ 111 ∷ 105 ∷ 100 ∷ 46 ∷ 116 ∷ 114 ∷ 117 ∷ 115 ∷ 116
    ∷ 121 ∷ 46 ∷ 97 ∷ 112 ∷ 112 ∷ 108 ∷ 111 ∷ 97 ∷ 100 ∷ 101 ∷ 114 ∷ 46 ∷ 115 ∷ 105 ∷ 103 ∷ 110 ∷ 46
    ∷ 107 ∷ 101 ∷ 121 ∷ 46 ∷ 49 ∷ []

abbrev pub encrypt_key_0_id : List ℕ
encrypt_key_0_id =
    99 ∷ 111 ∷ 109 ∷ 46 ∷ 97 ∷ 110 ∷ 100 ∷ 114 ∷ 111 ∷ 105 ∷ 100 ∷ 46 ∷ 116 ∷ 114 ∷ 117 ∷ 115 ∷ 116
    ∷ 121 ∷ 46 ∷ 97 ∷ 112 ∷ 112 ∷ 108 ∷ 111 ∷ 97 ∷ 100 ∷ 101 ∷ 114 ∷ 46 ∷ 101 ∷ 110 ∷ 99 ∷ 114 ∷ 121
    ∷ 112 ∷ 116 ∷ 46 ∷ 107 ∷ 101 ∷ 121 ∷ 46 ∷ 48 ∷ []

abbrev pub encrypt_key_1_id : List ℕ
encrypt_key_1_id =
    99 ∷ 111 ∷ 109 ∷ 46 ∷ 97 ∷ 110 ∷ 100 ∷ 114 ∷ 111 ∷ 105 ∷ 100 ∷ 46 ∷ 116 ∷ 114 ∷ 117 ∷ 115 ∷ 116
    ∷ 121 ∷ 46 ∷ 97 ∷ 112 ∷ 112 ∷ 108 ∷ 111 ∷ 97 ∷ 100 ∷ 101 ∷ 114 ∷ 46 ∷ 101 ∷ 110 ∷ 99 ∷ 114 ∷ 121
    ∷ 112 ∷ 116 ∷ 46 ∷ 107 ∷ 101 ∷ 121 ∷ 46 ∷ 49 ∷ []
