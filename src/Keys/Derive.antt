-- ===== src/Keys/Derive.antt =====
-- What `keys_derive` and its companions of src/keys.c derive from a token beside the tags. Ed25519 is a
-- parameter, as BLAKE2b is.
use comrade.Prelude.{ℕ, ◌+◌, ◌/◌, ◌%◌, ◌^◌, Option, some, List, [], ◌∷◌, if◌then◌else◌, ltb, take}
use comrade.Paths.Ep.{Os}
use comrade.Seal.{or_fail}
use comrade.Keys.{Tags, derive_tags, mcast_port}

-- "comrade1 sig key", "comrade1 bep44 seed", "comrade1 cell", "comrade1 cell class key",
-- "comrade1 ro token"
abbrev pub sig_info : List ℕ
sig_info =
    99 ∷ 111 ∷ 109 ∷ 114 ∷ 97 ∷ 100 ∷ 101 ∷ 49 ∷ 32 ∷ 115 ∷ 105 ∷ 103 ∷ 32 ∷ 107 ∷ 101 ∷ 121 ∷ []

abbrev pub seed_info : List ℕ
seed_info =
    99 ∷ 111 ∷ 109 ∷ 114 ∷ 97 ∷ 100 ∷ 101 ∷ 49 ∷ 32 ∷ 98 ∷ 101 ∷ 112 ∷ 52 ∷ 52 ∷ 32 ∷ 115 ∷ 101
    ∷ 101 ∷ 100 ∷ []

abbrev pub cell_info : List ℕ
cell_info = 99 ∷ 111 ∷ 109 ∷ 114 ∷ 97 ∷ 100 ∷ 101 ∷ 49 ∷ 32 ∷ 99 ∷ 101 ∷ 108 ∷ 108 ∷ []

abbrev pub slot_info : List ℕ
slot_info =
    99 ∷ 111 ∷ 109 ∷ 114 ∷ 97 ∷ 100 ∷ 101 ∷ 49 ∷ 32 ∷ 99 ∷ 101 ∷ 108 ∷ 108 ∷ 32 ∷ 99 ∷ 108 ∷ 97
    ∷ 115 ∷ 115 ∷ 32 ∷ 107 ∷ 101 ∷ 121 ∷ []

abbrev pub ro_info : List ℕ
ro_info =
    99 ∷ 111 ∷ 109 ∷ 114 ∷ 97 ∷ 100 ∷ 101 ∷ 49 ∷ 32 ∷ 114 ∷ 111 ∷ 32 ∷ 116 ∷ 111 ∷ 107 ∷ 101 ∷ 110
    ∷ []

-- TOKEN_AUTH_LEN
abbrev pub auth_len : ℕ
auth_len = 16

-- `struct session_keys`; the two tags stand in `tags`.
pub record SessionKeys : Type 0 where
  pub sig_key : List ℕ
  pub bep44_sk : List ℕ
  pub bep44_pk : List ℕ
  pub mcast : ℕ
  pub tags : Tags

-- A digit of "0123456789abcdef".
abbrev pub hex_digit : ℕ → ℕ
hex_digit d = if ltb d 10 then 48 + d else 87 + d

unfoldable pub hex : List ℕ → List ℕ
hex [] = []
hex (b ∷ bs) = hex_digit (b / 2 ^ 4) ∷ hex_digit (b % 2 ^ 4) ∷ hex bs

module _ (os : Os) where
  -- `key_pair` is `cc_ed25519_key_pair`, which may fail.
  unfoldable pub derive :
      (key_pair : (seed : List ℕ) → Option (List ℕ × List ℕ)) (rdv : List ℕ) → Option SessionKeys
  derive key_pair rdv = or_fail (key_pair (os.blake2b_keyed 32 rdv seed_info)) λ pair.
      some (record {
        sig_key = os.blake2b_keyed 32 rdv sig_info;
        bep44_sk = pair.0;
        bep44_pk = pair.1;
        mcast = mcast_port os rdv;
        tags = derive_tags os rdv;
      })

  -- The text up to its NUL: an r, and eight bytes in hexadecimal.
  unfoldable pub slot_salt : (rdv : List ℕ) → List ℕ
  slot_salt rdv = 114 ∷ hex (take 8 (os.blake2b_keyed 32 rdv cell_info))

  unfoldable pub slot_key : (auth : List ℕ) → List ℕ
  slot_key auth = os.blake2b_keyed 32 auth slot_info

  unfoldable pub derive_ro_auth : (rw : List ℕ) → List ℕ
  derive_ro_auth rw = take auth_len (os.blake2b_keyed 32 rw ro_info)
