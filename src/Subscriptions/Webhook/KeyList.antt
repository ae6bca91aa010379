-- ===== src/Subscriptions/Webhook/KeyList.antt =====
-- A store of keys with the instants until which they last, to test the deliveries with.
use Prim.Native.String.{String}
use text.Mathlib.Text.{◌==◌ as str_eq}
use text.Mathlib.TextEquality.{eq_iff}
use wash_flow.Prelude.{
  ℕ, ◌+◌, ◌*◌, ◌≡◌, refl, sym, subst, Bool, not, true, false, Option, none, some, List, [], ◌∷◌,
  arith, ◌&&◌, ltb, any, filter, Bool-cases, inl, inr, if◌then◌else◌,
}
use wash_flow.Subscriptions.Webhook.Deliveries.{KeyStore, IsKeyStore}

abbrev lasts : String → ℕ → String × ℕ → Bool
lasts key t (k, until) = str_eq k key && ltb t until

abbrev held : String → ℕ → List (String × ℕ) → Bool
held key t keys = any (lasts key t) keys

abbrev set_nx : String → ℕ → ℕ → List (String × ℕ) → Option (List (String × ℕ))
set_nx key now seconds keys =
    if held key now keys then none else some ((key, now + seconds * 1000) ∷ keys)

abbrev del : String → List (String × ℕ) → List (String × ℕ)
del key keys = filter (λ (k, _). not (str_eq k key)) keys

abbrev pub key_list : KeyStore
key_list = record { Keys = List (String × ℕ); held = held; set_nx = set_nx; del = del }

held-del : (key : String) (t : ℕ) (keys : List (String × ℕ)) → held key t (del key keys) ≡ false
held-del key t [] = refl
held-del key t ((k, until) ∷ keys) = ground (arith, held-del key t keys)

-- A key that is another one is not the first.
other_key :
    (k key other : String) → str_eq key other ≡ false → str_eq k key ≡ true → str_eq k other ≡ false
other_key k key other apart same =
    subst (λ x. str_eq x other ≡ false) (sym ((eq_iff k key).0 same)) apart

held-del_other :
    (key other : String) (t : ℕ) (keys : List (String × ℕ))
    → str_eq key other ≡ false
    → held other t (del key keys) ≡ held other t keys
held-del_other key other t [] apart = refl
held-del_other key other t ((k, until) ∷ keys) apart =
    let rest = held-del_other key other t keys apart in
    elim (Bool-cases (str_eq k key)) [
      | inl same ↦ let differs = other_key k key other apart same in ground arith
      | inr differs ↦ ground arith
    ]

set_nx-sets :
    (key : String) (now seconds : ℕ) (keys keys' : List (String × ℕ))
    → set_nx key now seconds keys ≡ some keys'
    → ((key, now + seconds * 1000) ∷ keys) ≡ keys'
set_nx-sets key now seconds keys keys' h = elim (Bool-cases (held key now keys)) [
  | inl there ↦ absurd (ground arith)
  | inr free ↦ ground arith
]

pub key_list-IsKeyStore : IsKeyStore key_list
key_list-IsKeyStore = record {
  set_nx_held = λ key now seconds keys h. ground arith;
  set_nx_free = λ key now seconds keys h. ((key, now + seconds * 1000) ∷ keys, ground arith);
  held-set_nx = λ key now seconds t keys keys' h before.
      subst (λ l. held key t l ≡ true) (set_nx-sets key now seconds keys keys' h)
        (let own = (eq_iff key key).1 refl in ground arith);
  held-set_nx_other = λ key other now seconds t keys keys' h apart.
      subst (λ l. held other t l ≡ held other t keys) (set_nx-sets key now seconds keys keys' h)
        (ground arith);
  held-del = held-del;
  held-del_other = held-del_other;
}
