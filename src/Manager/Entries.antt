-- ===== src/Manager/Entries.antt =====
-- The map of servers by port.
use shadowsocks_rust.Common.{
  ℕ, ◌==◌, ◌≡◌, ◌≢◌, refl, ◌∙◌, List, [], ◌∷◌, All, arith, Bool-cases, none, some, inl, inr,
}
use shadowsocks_rust.Manager.{
  Environment, ServerInstance, ServerConfig, addr_port, first, lookup, remove, insert,
}

module _ (E : Environment) where
  abbrev pub Entries : Type 0
  Entries = List (ℕ × ServerInstance E)

  pub lookup-remove_same : (port : ℕ) (es : Entries) → lookup E port (remove E port es) ≡ none
  unfolding lookup remove
  lookup-remove_same port [] = refl
  lookup-remove_same port ((p, inst) ∷ es) = ground (arith, lookup-remove_same port es)

  pub lookup-remove_other :
      (port other : ℕ) (es : Entries)
      → other ≢ port
      → lookup E other (remove E port es) ≡ lookup E other es
  unfolding lookup remove
  lookup-remove_other port other [] ne = refl
  lookup-remove_other port other ((p, inst) ∷ es) ne =
      ground (arith, lookup-remove_other port other es ne)

  pub lookup-insert_same :
      (port : ℕ) (inst : ServerInstance E) (es : Entries)
      → lookup E port (insert E port inst es) ≡ some inst
  unfolding lookup insert
  lookup-insert_same port inst es = ground arith

  pub lookup-insert_other :
      (port other : ℕ) (inst : ServerInstance E) (es : Entries)
      → other ≢ port
      → lookup E other (insert E port inst es) ≡ lookup E other es
  unfolding lookup insert
  lookup-insert_other port other inst es ne = ground (arith, lookup-remove_other port other es ne)

  -- An entry's key is the port of the first server of its configuration.
  abbrev pub HasPort : ℕ × ServerInstance E → Type 0
  HasPort (port, inst) =
      (s : ServerConfig) × (first E inst.config.servers ≡ some s) × (addr_port s.addr ≡ port)

  remove-HasPort : (port : ℕ) (es : Entries) → All HasPort es → All HasPort (remove E port es)
  unfolding remove
  remove-HasPort port [] h = tt
  remove-HasPort port ((p, inst) ∷ es) (h, hs) = elim (Bool-cases (p == port)) [
    | inl e ↦ rw (e, remove) (remove-HasPort port es hs)
    | inr e ↦ rw (e, remove) (h, remove-HasPort port es hs)
  ]

  -- No port has two entries.
  abbrev pub IsDistinct : Entries → Type 0
  IsDistinct [] = Unit {0}
  IsDistinct ((p, inst) ∷ es) = (lookup E p es ≡ none) × IsDistinct es

  remove-IsDistinct : (port : ℕ) (es : Entries) → IsDistinct es → IsDistinct (remove E port es)
  unfolding remove
  remove-IsDistinct port [] h = tt
  remove-IsDistinct port ((p, inst) ∷ es) (h, hs) = elim (Bool-cases (p == port)) [
    | inl e ↦ rw (e, remove) (remove-IsDistinct port es hs)
    | inr e ↦
        rw (e, remove)
          (lookup-remove_other port p es (ground arith) ∙ h, remove-IsDistinct port es hs)
  ]

  abbrev pub Kept : Entries → Type 0
  Kept es = All HasPort es × IsDistinct es

  pub remove-Kept : (port : ℕ) (es : Entries) → Kept es → Kept (remove E port es)
  remove-Kept port es (h, d) = (remove-HasPort port es h, remove-IsDistinct port es d)

  pub insert-Kept :
      (port : ℕ) (inst : ServerInstance E) (es : Entries)
      → HasPort (port, inst)
      → Kept es
      → Kept (insert E port inst es)
  unfolding insert
  insert-Kept port inst es hp (h, d) =
      ((hp, remove-HasPort port es h), (lookup-remove_same port es, remove-IsDistinct port es d))
