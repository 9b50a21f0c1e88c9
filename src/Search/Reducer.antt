-- ===== src/Search/Reducer.antt =====
-- morello/src/search.rs: the reducer for one result keeps the least entry.
use Prim.Native.Nat.{Ordering}
use morello.Base.{
  none, ℕ, leb, assert, Outcome, done, panic, >>=-eq-done, ◌≡◌, ◌⊎◌, inl, inr, refl, ap, ap₂, sym,
  ◌∙◌, subst, List, [], ◌∷◌, length, some, All, arith,
}
use morello.Memory.{level_count}
use morello.Cost.{Cost, cmp}
use morello.Cost.Order.{swap, cmp-swap, cmp_eq_iff, cmp_trans}
use morello.Search.{
  ImplReducer, ImplReducerResults, one, insert, insert_results, new_reducer, finalize, all_unique,
  Entry, entry_cmp, insert_one,
}

-- An entry with a peak for every level.
abbrev pub IsEntry : Entry → Type 0
IsEntry e = length e.0.peaks ≡ level_count

abbrev pub NotAbove : Entry → Entry → Type 0
NotAbove e f = (entry_cmp e f ≡ Ordering.lt) ⊎ (entry_cmp e f ≡ Ordering.eq)

cmp-eq_left :
    (b c d : Cost) → length b.peaks ≡ length c.peaks → cmp b c ≡ Ordering.eq → cmp b d ≡ cmp c d
cmp-eq_left b c d e h = ap (λ x. cmp x d) ((cmp_eq_iff b c e).0 h)

cmp-eq_right :
    (b c d : Cost) → length c.peaks ≡ length d.peaks → cmp c d ≡ Ordering.eq → cmp b d ≡ cmp b c
cmp-eq_right b c d e h = sym (ap (λ x. cmp b x) ((cmp_eq_iff c d e).0 h))

entry_cmp_trans :
    (e f g : Entry) → IsEntry e → IsEntry f → IsEntry g → NotAbove e f → NotAbove f g → NotAbove e g
unfolding entry_cmp
entry_cmp_trans (c, a) (d, b) (e, x) p q r h k =
    let pq : length c.peaks ≡ length d.peaks = p ∙ sym q in
    let qr : length d.peaks ≡ length e.peaks = q ∙ sym r in
    ground (arith, cmp_trans c d e pq qr, cmp-eq_left c d e pq, cmp-eq_right c d e qr)

entry_cmp_self : (e : Entry) → entry_cmp e e ≡ Ordering.eq
unfolding entry_cmp
entry_cmp_self (c, a) = ground (arith, (cmp_eq_iff c c refl).1 refl)

entry_cmp-swap : (e f : Entry) → entry_cmp f e ≡ swap (entry_cmp e f)
unfolding entry_cmp
entry_cmp-swap (c, a) (d, b) = ground (arith, cmp-swap c d)

-- Two entries of which neither is above the other are equal.
entry_cmp_antisymm : (e f : Entry) → IsEntry e → IsEntry f → NotAbove e f → NotAbove f e → e ≡ f
unfolding entry_cmp
entry_cmp_antisymm (c, a) (d, b) p q h k =
    let sw = cmp-swap c d in
    let same : cmp c d ≡ Ordering.eq = ground arith in
    let actions : a ≡ b = ground arith in
    ap₂ (λ x y. (x, y)) ((cmp_eq_iff c d (p ∙ sym q)).0 same) actions

-- The entry held after a list of insertions.
abbrev pub insert_all : Entry → List Entry → Entry
insert_all held [] = held
insert_all held (e ∷ es) = insert_all (insert_one (some held) e) es

abbrev pub Among : Entry → List Entry → Type 0
Among e [] = ⊥
Among e (f ∷ es) = (e ≡ f) ⊎ Among e es

-- The entry is one of those given and above none of them.
abbrev pub IsLeastOf : Entry → List Entry → Type 0
IsLeastOf e es = Among e es × All (NotAbove e) es

-- Of two entries the reducer keeps one that is above neither.
insert_one-keeps :
    (held e : Entry)
    → ((insert_one (some held) e ≡ held) × NotAbove held e)
      ⊎ ((insert_one (some held) e ≡ e) × NotAbove e held)
unfolding insert_one
insert_one-keeps held e = ground (arith, entry_cmp-swap held e)

insert_all-Among : (held : Entry) (es : List Entry) → Among (insert_all held es) (held ∷ es)
insert_all-Among held [] = inl refl
insert_all-Among held (e ∷ es) =
    let rest = insert_all-Among (insert_one (some held) e) es in
    elim rest [
      | inr later ↦ inr (inr later)
      | inl kept ↦ elim (insert_one-keeps held e) [
        | inl (same, below) ↦ inl (kept ∙ same)
        | inr (same, below) ↦ inr (inl (kept ∙ same))
      ]
    ]

Among-holds : (P : Entry → Type 0) (e : Entry) (es : List Entry) → Among e es → All P es → P e
Among-holds P e [] h a = elim h [ ]
Among-holds P e (f ∷ es) (inl same) a = subst P (sym same) a.0
Among-holds P e (f ∷ es) (inr later) a = Among-holds P e es later a.1

insert_all-IsEntry :
    (held : Entry) (es : List Entry) → IsEntry held → All IsEntry es → IsEntry (insert_all held es)
insert_all-IsEntry held es p ps =
    Among-holds IsEntry (insert_all held es) (held ∷ es) (insert_all-Among held es) (p, ps)

-- What is held after `x` and the entries `es` is above none of them, nor above the two given.
abbrev BelowAll : Entry → Entry → List Entry → Entry → Type 0
BelowAll held e es x = NotAbove (insert_all x es) held × All (NotAbove (insert_all x es)) (e ∷ es)

insert_all-below :
    (held : Entry) (es : List Entry)
    → IsEntry held
    → All IsEntry es
    → NotAbove (insert_all held es) held × All (NotAbove (insert_all held es)) es
insert_all-below held [] p ps = (inr (entry_cmp_self held), tt)
insert_all-below held (e ∷ es) p ps = elim (insert_one-keeps held e) [
  | inl (same, below) ↦
      let rest = insert_all-below held es p ps.1 in
      let best_entry = insert_all-IsEntry held es p ps.1 in
      let first = entry_cmp_trans (insert_all held es) held e best_entry p ps.0 rest.0 below in
      subst (BelowAll held e es) (sym same) (rest.0, (first, rest.1))
  | inr (same, below) ↦
      let rest = insert_all-below e es ps.0 ps.1 in
      let best_entry = insert_all-IsEntry e es ps.0 ps.1 in
      let first = entry_cmp_trans (insert_all e es) e held best_entry ps.0 p rest.0 below in
      subst (BelowAll held e es) (sym same) (first, rest)
]

insert_all-IsLeastOf :
    (e : Entry) (es : List Entry)
    → IsEntry e
    → All IsEntry es
    → IsLeastOf (insert_all e es) (e ∷ es)
insert_all-IsLeastOf e es p ps = (insert_all-Among e es, insert_all-below e es p ps)

-- The reducer after the entries, inserted one by one.
abbrev pub inserted : ImplReducer → List Entry → ImplReducer
inserted r [] = r
inserted r (e ∷ es) = inserted (insert r e.1 e.0) es

inserted-results :
    (r : ImplReducer) (held : Entry) (es : List Entry)
    → r.results ≡ one (some held)
    → (inserted r es).results ≡ one (some (insert_all held es))
unfolding insert insert_results
inserted-results r held [] h = h
inserted-results r held (e ∷ es) h =
    inserted-results (insert r e.1 e.0) (insert_one (some held) e) es
      (ap (λ x. insert_results r.top_k r.preferences x e) h)

finalize-inserted :
    (preferences : List ℕ) {r : ImplReducer} (e : Entry) (es : List Entry)
    → new_reducer 1 preferences ≡ done r
    → finalize (inserted r (e ∷ es)) ≡ ((insert_all e es).1, (insert_all e es).0) ∷ []
unfolding new_reducer finalize insert insert_results insert_one
finalize-inserted preferences {r} e es h =
    let (_, _, h1) = >>=-eq-done (assert (leb (length preferences) 1)) _ h in
    let (_, _, h2) = >>=-eq-done (assert (all_unique preferences)) _ h1 in
    let fresh : r.results ≡ one none = sym (ap results_of h2) in
    let first = ap (λ x. insert_results r.top_k r.preferences x e) fresh in
    let rest = inserted-results (insert r e.1 e.0) e es first in rw rest refl
  where
    results_of : Outcome ImplReducer → ImplReducerResults
    results_of (done t) = t.results
    results_of panic = one none

-- A reducer made for one result, into which any entries are inserted, ends with exactly one: the
-- least of them, by cost and then by action index, whatever the preferences.
pub finalize-IsLeastOf :
    (preferences : List ℕ) {r : ImplReducer} (e : Entry) (es : List Entry)
    → new_reducer 1 preferences ≡ done r
    → IsEntry e
    → All IsEntry es
    → (b : Entry) × (finalize (inserted r (e ∷ es)) ≡ (b.1, b.0) ∷ []) × IsLeastOf b (e ∷ es)
finalize-IsLeastOf preferences e es h p ps =
    (insert_all e es, finalize-inserted preferences e es h, insert_all-IsLeastOf e es p ps)

Among-self : (fs es : List Entry) → All (λ f. Among f es) fs → (e : Entry) → Among e fs → Among e es
Among-self fs es within e h = Among-holds (λ f. Among f es) e fs h within

insert_all_agree :
    (e : Entry) (es : List Entry) (f : Entry) (fs : List Entry)
    → IsEntry e
    → All IsEntry es
    → IsEntry f
    → All IsEntry fs
    → All (λ g. Among g (f ∷ fs)) (e ∷ es)
    → All (λ g. Among g (e ∷ es)) (f ∷ fs)
    → insert_all e es ≡ insert_all f fs
insert_all_agree e es f fs p ps q qs there back =
    let x = insert_all e es in
    let y = insert_all f fs in
    let x_among = Among-self (e ∷ es) (f ∷ fs) there x (insert_all-Among e es) in
    let y_among = Among-self (f ∷ fs) (e ∷ es) back y (insert_all-Among f fs) in
    entry_cmp_antisymm x y (insert_all-IsEntry e es p ps) (insert_all-IsEntry f fs q qs)
      (Among-holds (NotAbove x) y (e ∷ es) y_among (insert_all-below e es p ps))
      (Among-holds (NotAbove y) x (f ∷ fs) x_among (insert_all-below f fs q qs))

-- The result of a reducer for one result does not depend on the order of the insertions, nor on
-- repeated ones: two runs that insert the same entries, each at least one, finalize to the same.
pub finalize_agree :
    (preferences : List ℕ) {r : ImplReducer} (e : Entry) (es : List Entry) (f : Entry)
    (fs : List Entry)
    → new_reducer 1 preferences ≡ done r
    → All IsEntry (e ∷ es)
    → All IsEntry (f ∷ fs)
    → All (λ g. Among g (f ∷ fs)) (e ∷ es)
    → All (λ g. Among g (e ∷ es)) (f ∷ fs)
    → finalize (inserted r (e ∷ es)) ≡ finalize (inserted r (f ∷ fs))
finalize_agree preferences e es f fs h p q there back =
    finalize-inserted preferences e es h
    ∙ ap (λ (b : Entry). (b.1, b.0) ∷ []) (insert_all_agree e es f fs p.0 p.1 q.0 q.1 there back)
    ∙ sym (finalize-inserted preferences f fs h)
