-- ===== src/Manager/Methods.antt =====
-- The method that the manager takes for a server, and the keys that can be made.
use Prim.Native.String.{String}
use text.Mathlib.Text.{◌==◌ as str_eq}
use shadowsocks_rust.Common.{
  ℕ, ◌≡◌, ◌↔◌, refl, ap, ◌∙◌, List, [], ◌∷◌, Bool-cases, Option, none, some, ◌⊎◌, inl, inr,
}
use shadowsocks_rust.Common.Outcome.{Outcome, ok, err, panic, ◌>>=◌}
use shadowsocks_rust.Io.{IoError, other, unrecognized_method}
use shadowsocks_rust.Crypto.CipherType.{
  CipherType, CipherError, rc4, arms, from_str, first_match, to_string,
}
use shadowsocks_rust.Crypto.Names.{from_str_iff}
use shadowsocks_rust.Crypto.Sizes.{
  Backends, expect, symm_rc4, bytes_to_key, classic_bytes_to_key, key_size, iv_size,
}
use shadowsocks_rust.Crypto.Sizes.Known.{IsSupported, Known, sizes_known}
use shadowsocks_rust.Manager.{Environment, chosen_method}

bound :
    {A C : Type 0} (o : Outcome (Unit {0}) A) (a : A) (f : A → Outcome (Unit {0}) C)
    → o ≡ ok a
    → ((c : C) × (f a ≡ ok c))
    → (c : C) × ((o >>= f) ≡ ok c)
bound o a f e (c, g) = (c, ap (λ x. x >>= f) e ∙ g)

bound_panic :
    {A C : Type 0} (o : Outcome (Unit {0}) A) (f : A → Outcome (Unit {0}) C)
    → o ≡ panic
    → (o >>= f) ≡ panic
bound_panic o f e = ap (λ x. x >>= f) e

-- A key is made where the sizes are known.
key_made :
    (B : Backends) (md5 : List ℕ → List ℕ) (t : CipherType) (pwd : List ℕ)
    → Known B t
    → (key : List ℕ) × (bytes_to_key B md5 t pwd ≡ ok key)
unfolding bytes_to_key classic_bytes_to_key
key_made B md5 t pwd ((k, ek), (i, ei)) =
    bound (iv_size B t) i _ ei (bound (key_size B t) k _ ek (_, refl))

matched :
    (s : String) (xs : List (String × CipherType))
    → ((t : CipherType) × (first_match s xs ≡ ok t))
      ⊎ ((e : CipherError) × (first_match s xs ≡ err e))
unfolding first_match
matched s [] = inr (_, refl)
matched s ((pattern, u) ∷ xs) = elim (Bool-cases (str_eq s pattern)) [
  | inl e ↦ inl (u, rw (e, first_match) refl)
  | inr n ↦ rw (n, first_match) (matched s xs)
]

from_str_cases :
    (s : String)
    → ((t : CipherType) × (from_str s ≡ ok t)) ⊎ ((e : CipherError) × (from_str s ≡ err e))
unfolding from_str
from_str_cases s = matched s arms

from_str_rc4 : (s : String) → (from_str s ≡ ok rc4) ↔ (s ≡ "rc4")
unfolding to_string
from_str_rc4 s = (there, λ e. (from_str_iff s rc4).1 (inl e))
  where
    there : from_str s ≡ ok rc4 → s ≡ "rc4"
    there h = elim ((from_str_iff s rc4).0 h) [ inl e ↦ e | inr (_, t) ↦ cc ]

pub rc4_key :
    (B : Backends) (md5 : List ℕ → List ℕ) (pwd : List ℕ)
    → IsSupported B
    → bytes_to_key B md5 rc4 pwd ≡ panic
unfolding bytes_to_key classic_bytes_to_key iv_size
rc4_key B md5 pwd h = bound_panic (expect (B.iv_len (B.named symm_rc4))) _ (ap expect h.rc4_no_iv)

module _ (E : Environment) where
  open E use {backends, md5, parse_add, parse_remove, parse_stat}

  -- RC4 is asked for by its name, or is the method that is taken without one.
  abbrev pub Asked : Option String → Option CipherType → Type 0
  Asked m default = (m ≡ some "rc4") ⊎ ((m ≡ none) × (default ≡ some rc4))

  pub chosen_method_cases :
      (m : Option String) (default : Option CipherType)
      → ((t : CipherType) × (chosen_method E m default ≡ ok t) × ((t ≡ rc4) → Asked m default))
        ⊎ ((e : IoError) × (chosen_method E m default ≡ err e))
  unfolding chosen_method
  chosen_method_cases none none = inl (_, refl, λ t. cc)
  chosen_method_cases none (some t) = inl (t, refl, λ h. inr (refl, ap some h))
  chosen_method_cases (some m) default = elim (from_str_cases m) [
    | inl (t, e) ↦
        inl (t, rw (e, chosen_method) refl, λ h. inl (ap some ((from_str_rc4 m).0 (e ∙ ap ok h))))
    | inr (x, e) ↦
        inr (record { kind = other; message = unrecognized_method m }, rw (e, chosen_method) refl)
  ]

  pub chosen_method_asked :
      (m : Option String) (default : Option CipherType)
      → Asked m default
      → chosen_method E m default ≡ ok rc4
  unfolding chosen_method
  chosen_method_asked (some m) default (inl e) =
      let h : from_str m ≡ ok rc4 = (from_str_rc4 m).1 cc in rw (h, chosen_method) refl
  chosen_method_asked none default (inl e) = cc
  chosen_method_asked m default (inr (e, f)) =
      ap (λ x. chosen_method E x default) e ∙ ap (λ d. chosen_method E none d) f

  pub key_cases :
      IsSupported backends
      → (t : CipherType) (pwd : List ℕ)
      → ((key : List ℕ) × (bytes_to_key backends md5 t pwd ≡ ok key))
        ⊎ ((t ≡ rc4) × (bytes_to_key backends md5 t pwd ≡ panic))
  key_cases h t pwd = elim (sizes_known backends md5 pwd h t) [
    | inl known ↦ inl (key_made backends md5 t pwd known)
    | inr (e, _, p) ↦ inr (e, p)
  ]
