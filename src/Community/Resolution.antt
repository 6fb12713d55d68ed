-- ===== src/Community/Resolution.antt =====
-- What a joined workspace resolves to.
use agent_community.Common.{
  ℕ, ◌≡◌, refl, sym, ap, ◌∙◌, String, true, false, ◌||◌, not, Option, none, some, List, [], ◌∷◌,
  ◌++◌, length, length-append, suc, trim_space-clean, all_chars-weaken, ◌==◌, eq_refl, trim_space,
  is_space, trim_space-newline, arith, Bool-cases, Option-cases, inl, inr, if◌then◌else◌,
}
use Prim.Native.String.{◌++◌ as ◌<>◌}
use mathlib.Core.Path.{subst}
use agent_community.Community.{
  Directory, RegistryEntry, Registry, in_community_name, validate_name, lookup, MarkerFile, absent,
  holds, found, find_marker, Machine, resolved, source_marker, resolve_found, resolve, same_path,
  other_community, is_registered, join,
}

solid : (c : ℕ) → in_community_name c ≡ true → not (is_space c) ≡ true
unfolding is_space
solid c h = ground (arith, h)

trim_valid : (name : String) → validate_name name ≡ true → trim_space (name <> "\n") ≡ name
unfolding validate_name
trim_valid name h =
    trim_space-newline name
    ∙ trim_space-clean name
        (all_chars-weaken in_community_name (λ c. not (is_space c)) name solid (ground (arith, h)))

valid_nonempty : (name : String) → validate_name name ≡ true → (name == "") ≡ false
unfolding validate_name
valid_nonempty name h = ground (arith, h)

same_path_refl : (w : Directory) → same_path w w ≡ true
same_path_refl [] = refl
same_path_refl (c ∷ w) = rw (eq_refl c) (same_path_refl w)

length-same_path : (p w : Directory) → same_path p w ≡ true → length p ≡ length w
length-same_path [] [] h = refl
length-same_path [] (c ∷ w) h = absurd (ground (arith, h))
length-same_path (c ∷ p) [] h = absurd (ground (arith, h))
length-same_path (c ∷ p) (d ∷ w) h = ap (λ n. suc n) (length-same_path p w (ground (arith, h)))

below_differs : (c : String) (inner w : Directory) → same_path (c ∷ (inner ++ w)) w ≡ false
below_differs c inner w = elim (Bool-cases (same_path (c ∷ (inner ++ w)) w)) [
  | inl same ↦
      absurd (omega (arith, length-same_path (c ∷ (inner ++ w)) w same, length-append inner w))
  | inr differ ↦ differ
]

-- No marker is in the directories below `w` on the way to it.
abbrev pub NoNearer : (Directory → MarkerFile) → List String → Directory → Type 0
NoNearer marker [] w = Unit {0}
NoNearer marker (c ∷ inner) w = (marker (c ∷ (inner ++ w)) ≡ absent) × NoNearer marker inner w

find_marker-here :
    (marker : Directory → MarkerFile) (w : Directory) (text : String)
    → marker w ≡ holds text
    → find_marker marker w ≡ found w (trim_space text)
unfolding find_marker
find_marker-here marker [] text h = rw (h, find_marker) refl
find_marker-here marker (c ∷ w) text h = rw (h, find_marker) refl

find_marker-above :
    (marker : Directory → MarkerFile) (inner w : Directory) (text : String)
    → marker w ≡ holds text
    → NoNearer marker inner w
    → find_marker marker (inner ++ w) ≡ found w (trim_space text)
unfolding find_marker
find_marker-above marker [] w text h k = find_marker-here marker w text h
find_marker-above marker (c ∷ inner) w text h k =
    rw k.0 (find_marker-above marker inner w text h k.1)

-- The marker files behind a successful join.
abbrev pub joined : Machine → String → Directory → Directory → MarkerFile
joined machine name w p = if same_path p w then holds (name <> "\n") else machine.marker p

joined-NoNearer :
    (machine : Machine) (name : String) (inner w : Directory)
    → NoNearer machine.marker inner w
    → NoNearer (joined machine name w) inner w
joined-NoNearer machine name [] w h = tt
joined-NoNearer machine name (c ∷ inner) w h =
    (rw (below_differs c inner w) h.0, joined-NoNearer machine name inner w h.1)

abbrev or_machine : Machine → Option Machine → Machine
or_machine machine none = machine
or_machine machine (some after) = after

-- What a join has checked, and what it leaves.
record IsJoined (machine : Machine) (name : String) (w : Directory) (after : Machine) : Type 0 where
  valid : validate_name name ≡ true
  registered : is_registered name machine.registry ≡ true
  same_env : after.env ≡ machine.env
  same_registry : after.registry ≡ machine.registry
  marked : after.marker ≡ joined machine name w

join-IsJoined :
    (machine : Machine) (name : String) (w : Directory) {after : Machine}
    → join machine name w ≡ some after
    → IsJoined machine name w after
unfolding join
join-IsJoined machine name w {after} h =
    elim (Bool-cases (not (validate_name name) || not (is_registered name machine.registry))) [
      | inl bad ↦ absurd (ground (arith, h, bad))
      | inr fine ↦ elim (Bool-cases (other_community name (machine.marker w))) [
        | inl taken ↦ absurd (ground (arith, h, fine, taken))
        | inr free ↦
            let e : some (record machine { marker = joined machine name w }) ≡ some after =
              sym (rw (fine, free) refl) ∙ h in
            subst (IsJoined machine name w) (ap (or_machine machine) e) (record {
              valid = ground (arith, fine);
              registered = ground (arith, fine);
              same_env = refl;
              same_registry = refl;
              marked = refl;
            })
      ]
    ]

entry_of :
    (name : String) (registry : Option Registry)
    → is_registered name registry ≡ true
    → (r : Registry) × (e : RegistryEntry) × (registry ≡ some r) × (lookup name r ≡ some e)
entry_of name none h = absurd (ground (arith, h))
entry_of name (some r) h = elim (Option-cases (lookup name r)) [
  | inl missing ↦ absurd (ground (arith, h, missing))
  | inr (e, here) ↦ (r, e, refl, here)
]

found_resolves :
    (name : String) (w : Directory) (registry : Option Registry)
    → (name == "") ≡ false
    → is_registered name registry ≡ true
    → (r : Registry) × (e : RegistryEntry) × (registry ≡ some r)
      × (lookup name r ≡ some e)
      × (resolve_found registry (found w name)
          ≡ resolved
              (record { name = name; root = e.path; workspace = some w; source = source_marker }))
found_resolves name w registry nonempty h =
    let (r, e, same, here) = entry_of name registry h in
    (r, e, same, here, rw (nonempty, same, here) refl)

-- After a join, the workspace and every directory below it, on the way to which there is no other
-- marker, resolve to the community that was joined, with its root of the registry, unless the
-- environment names a community.
pub join-resolve :
    (machine : Machine) (name : String) (w : Directory) (inner : List String) {after : Machine}
    → join machine name w ≡ some after
    → (trim_space machine.env == "") ≡ true
    → NoNearer machine.marker inner w
    → (r : Registry) × (e : RegistryEntry) × (machine.registry ≡ some r)
      × (lookup name r ≡ some e)
      × (resolve after (inner ++ w)
          ≡ resolved
              (record { name = name; root = e.path; workspace = some w; source = source_marker }))
unfolding resolve
join-resolve machine name w inner {after} h unset alone =
    let done = join-IsJoined machine name w h in
    let (r, e, same, here, result) =
      found_resolves name w machine.registry (valid_nonempty name done.valid) done.registered in
    let seen : find_marker (joined machine name w) (inner ++ w) ≡ found w name =
      find_marker-above (joined machine name w) inner w (name <> "\n") (rw (same_path_refl w) refl)
        (joined-NoNearer machine name inner w alone)
      ∙ ap (found w) (trim_valid name done.valid) in
    (r, e, same, here, rw (done.same_env, unset, done.same_registry, done.marked, seen) result)
