-- ===== src/Manager/Actions.antt =====
-- What every action keeps, and what `remove` and `list` do.
use Prim.Native.String.{String}
use text.Mathlib.Text.{◌==◌ as str_eq}
use shadowsocks_rust.Common.{
  ℕ, ◌≡◌, ◌≢◌, refl, ap, subst, List, [], ◌∷◌, All, Bool-cases, Option, none, some, inl, inr,
}
use shadowsocks_rust.Common.Outcome.{Outcome, ok, err, panic, returned, ok_injective}
use shadowsocks_rust.Io.{IoError}
use shadowsocks_rust.Crypto.CipherType.{CipherType}
use shadowsocks_rust.Manager.{
  Environment, AddRequest, addr_port, ManagerService, Response, ok_line, listed, failure, lookup,
  handle_add, handle_remove, handle_list, handle_ping, handle_stat, list_entries, parsed,
  dispatch_command, handle_action,
}
use shadowsocks_rust.Manager.Entries.{
  Entries, HasPort, Kept, remove-Kept, lookup-remove_same, lookup-remove_other,
}
use shadowsocks_rust.Manager.Commands.{handle_add-Added}

module _ (E : Environment) where
  open E use {backends, md5, parse_add, parse_remove, parse_stat}

  -- The servers stay well kept, and the context is the same.
  abbrev pub Keeps : ManagerService E → ManagerService E → Type 0
  Keeps before after =
      (Kept E before.servers → Kept E after.servers) × (after.context ≡ before.context)

  handle_add-Keeps :
      (p : AddRequest) (service service' : ManagerService E) (r : Option Response)
      → handle_add E p service ≡ ok (r, service')
      → Keeps service service'
  handle_add-Keeps p service service' r e =
      let added = (handle_add-Added E p service service' r e).1 in (added.kept, added.context)

  same_Keeps :
      (service service' : ManagerService E) (a r : Option Response)
      → ◌≡◌ {A = Outcome IoError (Option Response × ManagerService E)}
          (ok (a, service))
          (ok (r, service'))
      → Keeps service service'
  same_Keeps service service' a r e =
      subst (Keeps service) (ap (λ x. x.1) (ok_injective _ _ e)) (λ k. k, refl)

  handle_remove-Keeps :
      (port : ℕ) (service service' : ManagerService E) (r : Option Response)
      → handle_remove E port service ≡ ok (r, service')
      → Keeps service service'
  unfolding handle_remove
  handle_remove-Keeps port service service' r e =
      subst (Keeps service) (ap (λ x. x.1) (ok_injective _ _ e))
        (λ k. remove-Kept E port service.servers k, refl)

  handle_list-Keeps :
      (service service' : ManagerService E) (r : Option Response)
      → handle_list E service ≡ ok (r, service')
      → Keeps service service'
  unfolding handle_list
  handle_list-Keeps service service' r e =
      let (entries, h, f) = returned (list_entries E service.servers) _ _ e in
      same_Keeps service service' (some (listed entries)) r f

  dispatch_command-Keeps :
      (action param : String) (service service' : ManagerService E) (r : Option Response)
      → dispatch_command E action param service ≡ ok (r, service')
      → Keeps service service'
  unfolding dispatch_command handle_ping handle_stat
  dispatch_command-Keeps action param service service' r e =
      elim (Bool-cases (str_eq action "add")) [
        | inl a ↦
            let (p, _, f) =
              returned (parsed E (parse_add param)) _ _ (rw (a, dispatch_command) at e) in
            handle_add-Keeps p service service' r f
        | inr n1 ↦ elim (Bool-cases (str_eq action "remove")) [
          | inl a ↦
              let (p, _, f) =
                returned (parsed E (parse_remove param)) _ _ (rw (n1, a, dispatch_command) at e) in
              handle_remove-Keeps p service service' r f
          | inr n2 ↦ elim (Bool-cases (str_eq action "list")) [
            | inl a ↦ handle_list-Keeps service service' r (rw (n1, n2, a, dispatch_command) at e)
            | inr n3 ↦ elim (Bool-cases (str_eq action "ping")) [
              | inl a ↦ same_Keeps service service' _ r (rw (n1, n2, n3, a, dispatch_command) at e)
              | inr n4 ↦ elim (Bool-cases (str_eq action "stat")) [
                | inl a ↦
                    let (p, _, f) =
                      returned (parsed E (parse_stat param)) _ _
                        (rw (n1, n2, n3, n4, a, dispatch_command) at e) in
                    same_Keeps service service' none r f
                | inr n5 ↦ (let f = rw (n1, n2, n3, n4, n5, dispatch_command) at e in cc)
              ]
            ]
          ]
        ]
      ]

  answered_Keeps :
      (service service' : ManagerService E) (r : Option Response)
      (o : Outcome IoError (Option Response × ManagerService E))
      → ((s : ManagerService E) (a : Option Response) → o ≡ ok (a, s) → Keeps service s)
      → ◌≡◌ {A = Outcome (Unit {0}) (Option Response × ManagerService E)}
          (elim o [
            | ok answer ↦ ok answer
            | err e ↦ ok (some (failure e), service)
            | panic ↦ panic
          ])
          (ok (r, service'))
      → Keeps service service'
  answered_Keeps service service' r (ok (a, s)) h e =
      subst (Keeps service) (ap (λ x. x.1) (ok_injective _ _ e)) (h s a refl)
  answered_Keeps service service' r (err x) h e =
      subst (Keeps service) (ap (λ x. x.1) (ok_injective _ _ e)) (λ k. k, refl)
  answered_Keeps service service' r panic h e = cc

  -- Every action that is answered, with success or with an error, keeps the map of servers well
  -- kept, each port once and every entry under the port of its first server, and leaves the
  -- context as it was.
  pub handle_action-Keeps :
      (action param : String) (service service' : ManagerService E) (r : Option Response)
      → handle_action E action param service ≡ ok (r, service')
      → Keeps service service'
  unfolding handle_action
  handle_action-Keeps action param service service' r e =
      answered_Keeps service service' r (dispatch_command E action param service)
        (λ s a f. dispatch_command-Keeps action param service s a f) e

  abbrev pub keys : Entries E → List ℕ
  keys [] = []
  keys ((port, inst) ∷ es) = port ∷ keys es

  abbrev pub listed_ports : List (ℕ × CipherType × List ℕ) → List ℕ
  listed_ports [] = []
  listed_ports (x ∷ xs) = x.0 ∷ listed_ports xs

  list_entries-keys :
      (es : Entries E)
      → All (HasPort E) es
      → (xs : List (ℕ × CipherType × List ℕ)) × (list_entries E es ≡ ok xs)
        × (listed_ports xs ≡ keys es)
  unfolding list_entries
  list_entries-keys [] h = ([], refl, refl)
  list_entries-keys ((port, inst) ∷ es) ((s, e, same), hs) =
      let (xs, f, g) = list_entries-keys es hs in
      (((addr_port s.addr, s.method, s.password) ∷ xs), rw (e, f, list_entries) refl, cc)

  -- If the map is well kept then `list` succeeds, changes nothing, and lists the ports of the
  -- map, in its order.
  pub handle_list-keys :
      (service : ManagerService E)
      → Kept E service.servers
      → (xs : List (ℕ × CipherType × List ℕ)) × (handle_list E service
          ≡ ok (some (listed xs), service))
        × (listed_ports xs ≡ keys service.servers)
  unfolding handle_list
  handle_list-keys service (h, d) =
      let (xs, e, f) = list_entries-keys service.servers h in (xs, rw (e, handle_list) refl, f)

  -- `remove` answers `ok` whether or not there is a server of the port; afterwards there is
  -- none, and the servers of all other ports are the same.
  pub handle_remove-lookup :
      (port : ℕ) (service : ManagerService E)
      → (after : ManagerService E) × (handle_remove E port service ≡ ok (some ok_line, after))
        × (lookup E port after.servers ≡ none)
        × ((other : ℕ)
            → other ≢ port
            → lookup E other after.servers ≡ lookup E other service.servers)
  unfolding handle_remove
  handle_remove-lookup port service = (
    _,
    refl,
    lookup-remove_same E port service.servers,
    λ other ne. lookup-remove_other E port other service.servers ne,
  )
