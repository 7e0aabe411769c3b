-- ===== src/Acl/Loading/Modes.antt =====
-- The mode of an access control list, from the lines of its file.
use Prim.Native.String.{String}
use text.Mathlib.Text.{◌==◌ as str_eq, starts_with}
use text.Mathlib.TextEquality.{eq_iff}
use mathlib.Core.List.{map}
use shadowsocks_rust.Common.{
  ◌≡◌, refl, sym, ap, subst, if◌then◌else◌, arith, ◌∙◌, List, [], ◌∷◌, ◌++◌, All, ◌⊎◌, inl, inr,
  Bool-cases, ◌||◌, true,
}
use shadowsocks_rust.Common.Outcome.{ok}
use shadowsocks_rust.Acl.{Matchers, Mode, black_list, white_list, AccessControl}
use shadowsocks_rust.Acl.Loading.{
  Line, outbound, bypass, proxy, skipped, sets_mode, opens, rule, classify, load_from_file,
}
use shadowsocks_rust.Acl.Loading.Folded.{last_mode}
use shadowsocks_rust.Acl.Loading.Loaded.{loaded-last_mode}

-- The lines that ask for a mode.
abbrev pub ModeLine : Mode → String → Type 0
ModeLine white_list line = (line ≡ "[reject_all]") ⊎ (line ≡ "[bypass_all]")
ModeLine black_list line = (line ≡ "[accept_all]") ⊎ (line ≡ "[proxy_all]")

abbrev pub IsQuiet : String → Type 0
IsQuiet line = (m : Mode) → ¬ ModeLine m line

-- The last line that asks for a mode asks for `m`, or no line asks for one and `m` is `start`.
abbrev pub LastMode : Mode → List String → Mode → Type 0
LastMode start texts m =
    ((before : List String) × (line : String) × (after : List String) × (texts
        ≡ before ++ (line ∷ after))
      × ModeLine m line
      × All IsQuiet after)
    ⊎ (All IsQuiet texts × (m ≡ start))

classify-ModeLine : (m : Mode) (line : String) → ModeLine m line → classify line ≡ sets_mode m
unfolding classify
classify-ModeLine white_list line (inl e) = ap classify e
classify-ModeLine white_list line (inr e) = ap classify e
classify-ModeLine black_list line (inl e) = ap classify e
classify-ModeLine black_list line (inr e) = ap classify e

one_of : (line a b : String) → (str_eq line a || str_eq line b) ≡ true → (line ≡ a) ⊎ (line ≡ b)
one_of line a b h = elim (Bool-cases (str_eq line a)) [
  | inl e ↦ inl ((eq_iff line a).0 e)
  | inr n ↦ inr ((eq_iff line b).0 (rw (n) at h))
]

-- The lines behind the tests on modes.
rest_quiet :
    (m : Mode) (line : String)
    → (if str_eq line "[outbound_block_list]"
        then opens outbound
        else if str_eq line "[black_list]" || str_eq line "[bypass_list]"
        then opens bypass
        else if str_eq line "[white_list]" || str_eq line "[proxy_list]"
        then opens proxy
        else rule)
      ≡ sets_mode m
    → ⊥
rest_quiet m line h = ground (arith, h)

ModeLine-classify : (m : Mode) (line : String) → classify line ≡ sets_mode m → ModeLine m line
unfolding classify
ModeLine-classify m line h = elim (Bool-cases (str_eq line "")) [
  | inl e ↦ (let g = rw (e, classify) at h in cc)
  | inr n1 ↦ elim (Bool-cases (starts_with line "#")) [
    | inl e ↦ (let g = rw (n1, e, classify) at h in cc)
    | inr n2 ↦ elim (Bool-cases (str_eq line "[reject_all]" || str_eq line "[bypass_all]")) [
      | inl e ↦
          (let g : white_list ≡ m = (let g' = rw (n1, n2, e, classify) at h in cc) in
            subst (λ k. ModeLine k line) g (one_of line "[reject_all]" "[bypass_all]" e))
      | inr n3 ↦ elim (Bool-cases (str_eq line "[accept_all]" || str_eq line "[proxy_all]")) [
        | inl e ↦
            (let g : black_list ≡ m = (let g' = rw (n1, n2, n3, e, classify) at h in cc) in
              subst (λ k. ModeLine k line) g (one_of line "[accept_all]" "[proxy_all]" e))
        | inr n4 ↦ absurd (rest_quiet m line (rw (n1, n2, n3, n4, classify) at h))
      ]
    ]
  ]
]

-- What a line does to the mode.
line_cases :
    (line : String)
    → ((m : Mode) × (classify line ≡ sets_mode m) × ModeLine m line)
      ⊎ (IsQuiet line × ((k : Mode) → elim (classify line) [ sets_mode n ↦ n | _ ↦ k ] ≡ k))
line_cases line = go (classify line) refl
  where
    quiet : (c : Line) → classify line ≡ c → ((m : Mode) → ¬ (c ≡ sets_mode m)) → IsQuiet line
    quiet c e no_mode m asks = no_mode m (sym e ∙ classify-ModeLine m line asks)

    go :
        (c : Line)
        → classify line ≡ c
        → ((m : Mode) × (c ≡ sets_mode m) × ModeLine m line)
          ⊎ (IsQuiet line × ((k : Mode) → elim c [ sets_mode n ↦ n | _ ↦ k ] ≡ k))
    go skipped e = inr (quiet skipped e (λ m h. cc), λ k. refl)
    go (sets_mode m) e = inl (m, refl, ModeLine-classify m line e)
    go (opens l) e = inr (quiet (opens l) e (λ m h. cc), λ k. refl)
    go rule e = inr (quiet rule e (λ m h. cc), λ k. refl)

-- Behind one more line in front.
behind :
    (line : String) (texts : List String) (start k m : Mode)
    → (ModeLine k line ⊎ (IsQuiet line × (k ≡ start)))
    → LastMode k texts m
    → LastMode start (line ∷ texts) m
behind line texts start k m _ (inl (before, l, after, split, asks, quiet)) =
    inl (line ∷ before, l, after, ap (◌∷◌ line) split, asks, quiet)
behind line texts start k m (inl asks) (inr (quiet, e)) =
    inl ([], line, texts, refl, subst (λ n. ModeLine n line) (sym e) asks, quiet)
behind line texts start k m (inr (q, same)) (inr (quiet, e)) = inr ((q, quiet), e ∙ same)

last_mode-LastMode :
    (texts : List String) (start : Mode) → LastMode start texts (last_mode start texts)
unfolding last_mode
last_mode-LastMode [] start = inr (tt, refl)
last_mode-LastMode (line ∷ texts) start = elim (line_cases line) [
  | inl (m, e, asks) ↦
      rw (e, last_mode)
        (behind line texts start m (last_mode m texts) (inl asks) (last_mode-LastMode texts m))
  | inr (q, keeps) ↦
      subst (λ k. LastMode start (line ∷ texts) (last_mode k texts)) (sym (keeps start))
        (behind line texts start start (last_mode start texts) (inr (q, refl))
          (last_mode-LastMode texts start))
]

quiet_mode :
    (texts : List String) (start : Mode) → All IsQuiet texts → last_mode start texts ≡ start
unfolding last_mode
quiet_mode [] start quiet = refl
quiet_mode (line ∷ texts) start (q, quiet) = elim (line_cases line) [
  | inl (m, _, asks) ↦ absurd (q m asks)
  | inr (_, keeps) ↦ ap (λ k. last_mode k texts) (keeps start) ∙ quiet_mode texts start quiet
]

asked_mode :
    (before after : List String) (line : String) (start m : Mode)
    → ModeLine m line
    → All IsQuiet after
    → last_mode start (before ++ (line ∷ after)) ≡ m
unfolding last_mode
asked_mode [] after line start m asks quiet =
    ap (λ c. last_mode (elim c [ sets_mode n ↦ n | _ ↦ start ]) after)
      (classify-ModeLine m line asks)
    ∙ quiet_mode after m quiet
asked_mode (l ∷ before) after line start m asks quiet =
    asked_mode before after line (elim (classify l) [ sets_mode n ↦ n | _ ↦ start ]) m asks quiet

-- There is only one such mode.
pub LastMode-last_mode :
    (texts : List String) (start m : Mode) → LastMode start texts m → last_mode start texts ≡ m
LastMode-last_mode texts start m (inl (before, line, after, split, asks, quiet)) =
    ap (last_mode start) split ∙ asked_mode before after line start m asks quiet
LastMode-last_mode texts start m (inr (quiet, e)) = quiet_mode texts start quiet ∙ sym e

-- If the lines of a file load to an access control list, then either some line asks for its
-- mode and no line behind it asks for one, where `[reject_all]` and `[bypass_all]` ask for the
-- white list mode and `[accept_all]` and `[proxy_all]` for the black list mode; or no line asks
-- for one and its mode is the black list mode.
pub loaded-LastMode :
    (M : Matchers) (texts : List String) (acl : AccessControl M)
    → load_from_file M (map ok texts) ≡ ok acl
    → LastMode black_list texts acl.mode
loaded-LastMode M texts acl h =
    subst (LastMode black_list texts) (sym (loaded-last_mode M texts acl h))
      (last_mode-LastMode texts black_list)
