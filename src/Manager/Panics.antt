-- ===== src/Manager/Panics.antt =====
-- The requests that end the manager.
use Prim.Native.String.{String}
use text.Mathlib.Text.{◌==◌ as str_eq}
use text.Mathlib.TextEquality.{eq_iff}
use shadowsocks_rust.Common.{ℕ, ◌≡◌, ◌↔◌, refl, List, Bool-cases, Option, none, some, ◌⊎◌, inl, inr}
use shadowsocks_rust.Common.Outcome.{Outcome, ok, err, panic, ◌>>=◌}
use shadowsocks_rust.Io.{IoError}
use shadowsocks_rust.Crypto.CipherType.{CipherType, rc4}
use shadowsocks_rust.Crypto.Sizes.Known.{IsSupported}
use shadowsocks_rust.Manager.{
  Environment, Config, AddRequest, ServerConfig, any_address, chosen_plugin, ManagerService,
  Response, failure, new_server_config, handle_add, handle_remove, handle_ping, handle_stat, parsed,
  dispatch_command, handle_action,
}
use shadowsocks_rust.Manager.Methods.{rc4_key, chosen_method_cases, chosen_method_asked, key_cases}
use shadowsocks_rust.Manager.Entries.{Kept}
use shadowsocks_rust.Manager.Commands.{add_server_cases}
use shadowsocks_rust.Manager.Actions.{handle_list-keys}

module _ (E : Environment) where
  open E use {backends, md5, parse_add, parse_remove, parse_stat}

  -- A request for RC4: by its name, or by the manager's own method.
  abbrev pub AsksRc4 : AddRequest → Config E → Type 0
  AsksRc4 p context =
      (p.method ≡ some "rc4") ⊎ ((p.method ≡ none) × (context.manager_method ≡ some rc4))

  abbrev asked_server : AddRequest → CipherType → List ℕ → ServerConfig
  asked_server p t key = record {
    addr = any_address E p.server_port;
    password = p.password;
    method = t;
    timeout = none;
    enc_key = key;
    plugin = chosen_plugin E p;
  }

  -- An answer or an error, or a panic and a request for RC4.
  handle_add_cases :
      IsSupported backends
      → (p : AddRequest) (service : ManagerService E)
      → ¬ (handle_add E p service ≡ panic)
        ⊎ ((handle_add E p service ≡ panic) × AsksRc4 p service.context)
  unfolding handle_add new_server_config
  handle_add_cases h p service =
      elim (chosen_method_cases E p.method service.context.manager_method) [
        | inr (e, f) ↦ inl (λ g. (let g' = rw (f, handle_add) at g in cc))
        | inl (t, f, asked) ↦ elim (key_cases E h t p.password) [
          | inl (key, k) ↦ elim (add_server_cases E p (asked_server p t key) service) [
            | inl r ↦ inl (λ g. (let g' = rw (f, k, r, handle_add) at g in cc))
            | inr (e, r) ↦ inl (λ g. (let g' = rw (f, k, r, handle_add) at g in cc))
          ]
          | inr (is_rc4, k) ↦ inr (rw (f, k, handle_add) refl, asked is_rc4)
        ]
      ]

  handle_add_panics :
      IsSupported backends
      → (p : AddRequest) (service : ManagerService E) → AsksRc4 p service.context
      → handle_add E p service ≡ panic
  unfolding handle_add new_server_config
  handle_add_panics h p service asks =
      let f = chosen_method_asked E p.method service.context.manager_method asks in
      rw (f, rc4_key backends md5 p.password h, handle_add) refl

  -- The commands but `add`, on a map that is well kept.
  abbrev IsFatal : String → String → ManagerService E → Type 0
  IsFatal action param service =
      (action ≡ "add") × ((p : AddRequest) × (parse_add param ≡ some p) × AsksRc4 p service.context)

  parsed_cases :
      {A C : Type 0} (o : Option A) (f : A → Outcome IoError C)
      → ((a : A) → (o ≡ some a) → ¬ (f a ≡ panic))
      → ¬ ((parsed E o >>= f) ≡ panic)
  unfolding parsed
  parsed_cases none f h e = cc
  parsed_cases (some a) f h e = h a refl e

  add_only :
      IsSupported backends
      → (param : String) (service : ManagerService E) (o : Option AddRequest)
      → (parsed E o >>= λ p. handle_add E p service) ≡ panic
      → (p : AddRequest) × (o ≡ some p) × AsksRc4 p service.context
  unfolding parsed
  add_only h param service none e = cc
  add_only h param service (some p) e = elim (handle_add_cases h p service) [
    | inl no_panic ↦ absurd (no_panic e)
    | inr (_, asks) ↦ (p, refl, asks)
  ]

  dispatch_ends :
      IsSupported backends
      → (action param : String) (service : ManagerService E) → Kept E service.servers
      → dispatch_command E action param service ≡ panic
      → IsFatal action param service
  unfolding dispatch_command handle_remove handle_ping handle_stat
  dispatch_ends h action param service kept e = elim (Bool-cases (str_eq action "add")) [
    | inl a ↦ (
      (eq_iff action "add").0 a,
      add_only h param service (parse_add param) (rw (a, dispatch_command) at e),
    )
    | inr n1 ↦ elim (Bool-cases (str_eq action "remove")) [
      | inl a ↦ absurd (
          parsed_cases (parse_remove param) (λ p. handle_remove E p service) (λ p f g. cc)
            (rw (n1, a, dispatch_command) at e))
      | inr n2 ↦ elim (Bool-cases (str_eq action "list")) [
        | inl a ↦
            let (xs, f, _) = handle_list-keys E service kept in
            (let g = rw (n1, n2, a, dispatch_command) at e in cc)
        | inr n3 ↦ elim (Bool-cases (str_eq action "ping")) [
          | inl a ↦ (let g = rw (n1, n2, n3, a, dispatch_command) at e in cc)
          | inr n4 ↦ elim (Bool-cases (str_eq action "stat")) [
            | inl a ↦ absurd (
                parsed_cases (parse_stat param) (λ p. handle_stat E p service) (λ p f g. cc)
                  (rw (n1, n2, n3, n4, a, dispatch_command) at e))
            | inr n5 ↦ (let g = rw (n1, n2, n3, n4, n5, dispatch_command) at e in cc)
          ]
        ]
      ]
    ]
  ]

  ends_dispatch :
      IsSupported backends
      → (action param : String) (service : ManagerService E) → IsFatal action param service
      → dispatch_command E action param service ≡ panic
  unfolding dispatch_command parsed
  ends_dispatch h action param service (a, (p, f, asks)) =
      rw ((eq_iff action "add").1 a, f, dispatch_command) (handle_add_panics h p service asks)

  only_panic :
      (service : ManagerService E) (o : Outcome IoError (Option Response × ManagerService E))
      → ◌≡◌ {A = Outcome (Unit {0}) (Option Response × ManagerService E)}
          (elim o [
            | ok answer ↦ ok answer
            | err e ↦ ok (some (failure e), service)
            | panic ↦ panic
          ])
          panic
      → o ≡ panic
  only_panic service (ok a) e = cc
  only_panic service (err x) e = cc
  only_panic service panic e = refl

  -- Let OpenSSL have every cipher that is asked for by number, and let only its RC4 have no
  -- initial vector. A manager whose map of servers is well kept ends in a panic on an action
  -- exactly if it is `add` with a request that parses and that asks for `rc4`, by that name or,
  -- naming no method, by the manager's own method. Every other action is answered, by success
  -- or by an error.
  pub handle_action_panics :
      IsSupported backends
      → (action param : String) (service : ManagerService E) → Kept E service.servers
      → (handle_action E action param service ≡ panic) ↔ (
          (action ≡ "add")
          × ((p : AddRequest) × (parse_add param ≡ some p) × AsksRc4 p service.context))
  unfolding handle_action
  handle_action_panics h action param service kept = (
    λ e.
        dispatch_ends h action param service kept
          (only_panic service (dispatch_command E action param service) e),
    λ ends. rw (ends_dispatch h action param service ends, handle_action) refl,
  )
