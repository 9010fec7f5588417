-- ===== src/Runs/Latest.antt =====
-- Which run of src/state/task-runs.js is the last one, and when a new one is needed.
use wait_a_minute_plugin.Base.{
  ◌≤◌, ◌≡◌, refl, sym, ap, ◌∙◌, subst, ◌↔◌, inl, inr, Bool, true, false, Option, none, some, List,
  [], ◌∷◌, arith, ◌=?◌, if◌then◌else◌, leb→le, In, any, find?, all-In, not_any-In, not_any_of_In,
}
use wait_a_minute_plugin.Base.Dict.{values, is_some}
use wait_a_minute_plugin.Base.Sort.{sort_by-In, sort_by-Ordered, Ordered}
use wait_a_minute_plugin.Runs.{
  Run, Task, readable, no_later, get_runs, last, get_last_run, get_active_run, get_current_run,
  needs_new_run,
}

last-In : (rs : List Run) (l : Run) → last rs ≡ some l → In l rs
unfolding last
last-In [] l h = cc h
last-In (r ∷ []) l h = inl (cc)
last-In (r ∷ (s ∷ rs)) l h = inr (last-In (s ∷ rs) l h)

last-Ordered :
    (rs : List Run) (l r : Run)
    → Ordered no_later rs
    → last rs ≡ some l
    → In r rs
    → r.started_at ≤ l.started_at
unfolding last
last-Ordered [] l r o h m = absurd m
last-Ordered (x ∷ []) l r o h m = elim m [
  | inl e ↦ let same_ : x ≡ l = cc in omega (arith, ap (λ y. y.started_at) (e ∙ same_))
  | inr n ↦ absurd n
]
last-Ordered (x ∷ (s ∷ rs)) l r o h m = elim m [
  | inl e ↦
      subst (λ y. y.started_at ≤ l.started_at) (sym e)
        (leb→le _ _ (all-In (no_later x) (s ∷ rs) l o.0 (last-In (s ∷ rs) l h)))
  | inr n ↦ last-Ordered (s ∷ rs) l r o.1 h n
]

last-some : (rs : List Run) (r : Run) → In r rs → (l : Run) × (last rs ≡ some l)
unfolding last
last-some [] r m = absurd m
last-some (x ∷ []) r m = (x, refl)
last-some (x ∷ (s ∷ rs)) r m = last-some (s ∷ rs) s (inl refl)

get_runs-Ordered : (t : Task) → Ordered no_later (get_runs t)
unfolding get_runs
get_runs-Ordered t =
    sort_by-Ordered no_later (λ x y h. ground arith) (λ x y z h k. ground arith)
      (readable (values t.files))

get_runs-In : (t : Task) (r : Run) → In r (get_runs t) ↔ In r (readable (values t.files))
unfolding get_runs
get_runs-In t r = sort_by-In no_later (readable (values t.files)) r

-- Where a file of a run can be read there is a last run: it is the run of such a file, and no run of such
-- a file started later.
pub get_last_run-latest :
    (t : Task) (r : Run)
    → In r (readable (values t.files))
    → (l : Run) × (get_last_run t ≡ some l)
      × In l (readable (values t.files))
      × ((q : Run) → In q (readable (values t.files)) → q.started_at ≤ l.started_at)
get_last_run-latest t r m =
    let (l, e) = last-some (get_runs t) r ((get_runs-In t r).1 m) in
    (
      l,
      e,
      (get_runs-In t l).0 (last-In (get_runs t) l e),
      λ q n. last-Ordered (get_runs t) l q (get_runs-Ordered t) e ((get_runs-In t q).1 n),
    )

find?-any : (p : Run → Bool) (rs : List Run) → is_some (find? p rs) ≡ any p rs
find?-any p [] = refl
find?-any p (r ∷ rs) = ground (arith, find?-any p rs)

neither :
    (a c : Option Run)
    → ((if is_some a then false else if is_some c then false else true) ≡ true)
      ↔ ((is_some a ≡ false) × (c ≡ none))
neither none none = (λ h. (refl, refl), λ h. refl)
neither none (some r) = (λ h. cc h, λ h. cc h.1)
neither (some q) c = (λ h. cc h, λ h. cc h.0)

-- A new run is needed exactly if no file of a run that can be read has an active run, and the current
-- run of the task, if it has one, cannot be read.
pub needs_new_run_iff :
    (t : Task)
    → (needs_new_run t ≡ true) ↔ (
        ((r : Run) → In r (readable (values t.files)) → (r.status =? "active") ≡ false)
        × (get_current_run t ≡ none))
unfolding needs_new_run get_active_run
needs_new_run_iff t =
    let active : Run → Bool = λ r. r.status =? "active" in
    let (some_way, back) = neither (find? active (get_runs t)) (get_current_run t) in
    (
      λ h.
          let (a, c) = some_way h in
          (
            λ r m.
                not_any-In active (get_runs t) r (sym (find?-any active (get_runs t)) ∙ a)
                  ((get_runs-In t r).1 m),
            c,
          ),
      λ (idle, c). back (
        find?-any active (get_runs t)
            ∙ not_any_of_In active (get_runs t) (λ r m. idle r ((get_runs-In t r).0 m)),
        c,
      ),
    )
