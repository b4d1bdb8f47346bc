-- ===== src/Command/Flags.antt =====
-- The flags that main.go sets before it executes its command.
use kube_vip_cloud_provider.Prelude.{
  String, ◌≡◌, refl, subst, inl, inr, Option, none, some, List, [], ◌∷◌, str_eq, if◌then◌else◌,
  Bool-cases, Result, err, ok,
}
use kube_vip_cloud_provider.Command.{
  stored, Flag, Manager, Process, goes_on, exits, fatal, visit_all, visited, set_static,
}
use kube_vip_cloud_provider.Command.Controllers.{goes_on-inj}

-- The value that a flag of the name is to have, or none for one that keeps its own.
abbrev pub static_text : String → Option String
static_text name =
    if str_eq name "allow-untagged-cloud"
    then some "true"
    else if str_eq name "authentication-skip-lookup"
    then some "true"
    else if str_eq name "cloud-provider"
    then some "kubevip"
    else none

-- A flag after the visit: its value is what its own Set makes of the text, and nothing else of it
-- has changed.
abbrev pub IsSetBy : Flag → Flag → Option String → Type 0
IsSetBy old new none = new ≡ old
IsSetBy old new (some text) =
    (v : String) × (old.parse text ≡ ok v) × (new ≡ record old { value = v })

-- The flags before and after, one by one.
abbrev pub AreSet : List Flag → List Flag → Type 0
AreSet [] [] = Unit
AreSet (old ∷ olds) (new ∷ news) = IsSetBy old new (static_text old.name) × AreSet olds news
AreSet _ _ = ⊥

stored-IsSetBy :
    (old : Flag) (text : String) (r : Result String) {new : Flag}
    → old.parse text ≡ r
    → stored old r ≡ ok new
    → IsSetBy old new (some text)
stored-IsSetBy old text (ok v) parsed h = (v, parsed, cc)
stored-IsSetBy old text (err e) parsed h = cc

set_static-IsSetBy :
    (old : Flag) {new : Flag} → set_static old ≡ ok new → IsSetBy old new (static_text old.name)
unfolding set_static
set_static-IsSetBy old {new} h = elim (Bool-cases (str_eq old.name "allow-untagged-cloud")) [
  | inl a ↦ rw a (stored-IsSetBy old "true" (old.parse "true") refl (rw a at h))
  | inr a ↦ elim (Bool-cases (str_eq old.name "authentication-skip-lookup")) [
    | inl b ↦ rw (a, b) (stored-IsSetBy old "true" (old.parse "true") refl (rw (a, b) at h))
    | inr b ↦ elim (Bool-cases (str_eq old.name "cloud-provider")) [
      | inl c ↦
          rw (a, b, c) (stored-IsSetBy old "kubevip" (old.parse "kubevip") refl (rw (a, b, c) at h))
      | inr c ↦
          rw (a, b, c) (let q : ◌≡◌ {A = Result Flag} (ok old) (ok new) = rw (a, b, c) at h in cc)
    ]
  ]
]

visited-AreSet :
    (M : Manager) (old : Flag) (olds : List Flag) (r : Result Flag) (rest : Process (List Flag))
    {news : List Flag}
    → set_static old ≡ r
    → ((others : List Flag) → rest ≡ goes_on others → AreSet olds others)
    → visited M old.name r rest ≡ goes_on news
    → AreSet (old ∷ olds) news
visited-AreSet M old olds (err e) rest set others h = cc
visited-AreSet M old olds (ok new) (exits text) set others h = cc
visited-AreSet M old olds (ok new) (fatal text) set others h = cc
visited-AreSet M old olds (ok new) (goes_on flags) set others h =
    subst (AreSet (old ∷ olds)) (goes_on-inj h) (set_static-IsSetBy old set, others flags refl)

-- When the visit of the flags does not end the process, then every flag stays in its place, the
-- flags allow-untagged-cloud and authentication-skip-lookup have the value that they make of
-- `true` and cloud-provider has the one that it makes of `kubevip`, in each case one that the flag
-- accepts; every other flag is unchanged.
pub visit_all-AreSet :
    (M : Manager) (flags : List Flag) (news : List Flag)
    → visit_all M flags ≡ goes_on news
    → AreSet flags news
unfolding visit_all
visit_all-AreSet M [] news h = subst (AreSet []) (goes_on-inj h) tt
visit_all-AreSet M (flag ∷ flags) news h =
    visited-AreSet M flag flags (set_static flag) (visit_all M flags) refl
      (λ others k. visit_all-AreSet M flags others k) h
