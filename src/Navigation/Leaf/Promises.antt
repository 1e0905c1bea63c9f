-- ===== src/Navigation/Leaf/Promises.antt =====
-- A leaf's evidence is terminal only where every report agrees.
use robot_harness.Base.{
  String, Bool, true, false, List, [], ◌∷◌, ◌≡◌, ◌≢◌, ◌⊎◌, inr, not, ◌||◌, if◌then◌else◌, refl, sym,
  ap, subst, str_eq, ◌∙◌, arith, str_eq_iff, is_empty,
}
use robot_harness.HexText.{size, is_identifier}
use robot_harness.Navigation.Leaf.{
  LeafRecord, LeafEvent, enters, reports, enter, is_ambiguous, associate, kind, observe_all,
}

-- An optional text: unknown, or the given one.
abbrev IsKnownAs : String → String → Type 0
IsKnownAs known s = (known ≡ "") ⊎ (known ≡ s)

record Agrees (r : LeafRecord) (identity outcome : String) : Type 0 where
  pub unambiguous : r.ambiguous ≡ false
  pub identified : is_identifier identity ≡ true
  pub same_uuid : IsKnownAs r.uuid identity
  pub same_terminal : IsKnownAs r.terminal outcome
  pub new_uuid : (associate r identity outcome).uuid ≡ identity
  pub new_terminal : (associate r identity outcome).terminal ≡ outcome

empty_text : (s : String) → is_empty s ≡ true → s ≡ ""
unfolding is_empty
empty_text String.[] e = refl
empty_text (String.◌∷◌ _ _) e = ground arith

associate-Agrees :
    (r : LeafRecord) (i o : String) → (associate r i o).ambiguous ≡ false → Agrees r i o
unfolding associate is_ambiguous
associate-Agrees r i o u =
    let uuid = empty_text r.uuid in
    let terminal = empty_text r.terminal in
    ground (arith, str_eq_iff r.uuid i, str_eq_iff r.terminal o)

identifier-ne-empty : (i : String) → is_identifier i ≡ true → i ≢ ""
unfolding is_identifier size is_empty
identifier-ne-empty String.[] k e = ground arith
identifier-ne-empty (String.◌∷◌ c s) k e = ground (arith, ap is_empty e)

-- In these events, from a record that was entered or not, every report comes after an entry and names
-- this identity, a well-formed one, and this outcome or none.
abbrev pub Confirms : String → String → Bool → List LeafEvent → Type 0
Confirms identity outcome entered [] = Unit {0}
Confirms identity outcome entered (enters ∷ es) = Confirms identity outcome true es
Confirms identity outcome entered (reports i o ∷ es) =
    (entered ≡ true)
    × (i ≡ identity)
    × (is_identifier i ≡ true)
    × ((o ≡ "") ⊎ (o ≡ outcome))
    × Confirms identity outcome entered es

-- What the last record tells of the first one and of the events.
abbrev Told : LeafRecord → LeafRecord → List LeafEvent → Type 0
Told r last es =
    (r.ambiguous ≡ false)
    × IsKnownAs r.uuid last.uuid
    × IsKnownAs r.terminal last.terminal
    × Confirms last.uuid last.terminal r.entered es

associate-entered : (r : LeafRecord) (i o : String) → (associate r i o).entered ≡ r.entered
unfolding associate
associate-entered r i o = ground arith

associated_entered :
    (r : LeafRecord) (i o : String) → (associate r i o).ambiguous ≡ false → r.entered ≡ true
unfolding associate is_ambiguous
associated_entered r i o u = ground arith

observe_all-Told :
    (r : LeafRecord) (es : List LeafEvent)
    → (observe_all r es).ambiguous ≡ false
    → Told r (observe_all r es) es
unfolding observe_all enter
observe_all-Told r [] u = (u, inr refl, inr refl, tt)
observe_all-Told r (enters ∷ es) u = observe_all-Told (enter r) es u
observe_all-Told r (reports i o ∷ es) u =
    let (clear, uuid, terminal, rest) = observe_all-Told (associate r i o) es u in
    let last = observe_all (associate r i o) es in
    let first = associate-Agrees r i o clear in
    let named = identifier-ne-empty i first.identified in
    let same : i ≡ last.uuid = ground arith in
    let after : Confirms last.uuid last.terminal r.entered es =
      subst (λ b. Confirms last.uuid last.terminal b es) (associate-entered r i o) rest in
    (
      first.unambiguous,
      ground arith,
      ground arith,
      (associated_entered r i o clear, same, first.identified, ground arith, after),
    )

-- Some event enters, or the record was entered.
unfoldable pub is_entered : Bool → List LeafEvent → Bool
is_entered entered [] = entered
is_entered entered (enters ∷ es) = is_entered true es
is_entered entered (reports i o ∷ es) = is_entered entered es

observe_all-entered :
    (r : LeafRecord) (es : List LeafEvent) → (observe_all r es).entered ≡ is_entered r.entered es
unfolding observe_all enter is_entered
observe_all-entered r [] = refl
observe_all-entered r (enters ∷ es) = observe_all-entered (enter r) es
observe_all-entered r (reports i o ∷ es) =
    observe_all-entered (associate r i o) es ∙ ap (λ b. is_entered b es) (associate-entered r i o)

abbrev kind_text : Bool → Bool → Bool → Bool → String
kind_text ambiguous entered no_uuid no_terminal =
    if ambiguous
    then "unknown"
    else if not entered
    then "not_submitted"
    else if no_uuid || no_terminal
    then "unknown"
    else "terminal"

kind_tests :
    (ambiguous entered no_uuid no_terminal : Bool)
    → kind_text ambiguous entered no_uuid no_terminal ≡ "terminal"
    → (ambiguous ≡ false) × (entered ≡ true) × (no_terminal ≡ false)
kind_tests true _ _ _ k = ground (arith, ap (λ s. str_eq s "terminal") k)
kind_tests false false _ _ k = ground (arith, ap (λ s. str_eq s "terminal") k)
kind_tests false true true _ k = ground (arith, ap (λ s. str_eq s "terminal") k)
kind_tests false true false true k = ground (arith, ap (λ s. str_eq s "terminal") k)
kind_tests false true false false k = (refl, refl, refl)

terminal_kind :
    (r : LeafRecord)
    → kind r ≡ "terminal"
    → (r.ambiguous ≡ false) × (r.entered ≡ true) × (r.terminal ≢ "")
unfolding kind is_empty
terminal_kind r k =
    let (clear, entered, named) =
      kind_tests r.ambiguous r.entered (is_empty r.uuid) (is_empty r.terminal) k in
    (clear, entered, λ e. ground (arith, ap is_empty e))

-- After any entries and reports a leaf's evidence is terminal only where the record was not ambiguous
-- before, the action was entered, an outcome is known, and every report came after an entry and named
-- the same identity, a well-formed one, and that outcome or none. So a report that contradicts
-- another, or that came before the action was entered, keeps the kind from being terminal for good,
-- later entries and reports included.
pub terminal-Confirms :
    (r : LeafRecord) (es : List LeafEvent)
    → kind (observe_all r es) ≡ "terminal"
    → (r.ambiguous ≡ false)
      × (is_entered r.entered es ≡ true)
      × ((observe_all r es).terminal ≢ "")
      × Confirms (observe_all r es).uuid (observe_all r es).terminal r.entered es
terminal-Confirms r es k =
    let (clear, entered, named) = terminal_kind (observe_all r es) k in
    let told = observe_all-Told r es clear in
    (told.0, sym (observe_all-entered r es) ∙ entered, named, told.3)
