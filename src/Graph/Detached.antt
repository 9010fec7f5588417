-- ===== src/Graph/Detached.antt =====
-- The loops of `removeNode` in src/context/context-graph.js on the lists of one index: which edges
-- are left when the twins of some edges are taken out.
use wait_a_minute_plugin.Base.{
  String, ◌≡◌, refl, ap, ◌∙◌, subst, ◌⊎◌, inl, inr, true, false, List, [], ◌∷◌, arith, eq_iff,
  eq_refl, ◌=?◌, if◌then◌else◌, Bool-cases, Option-cases, In, of_not_true, not_any-In,
  not_any_of_In,
}
use wait_a_minute_plugin.Base.Dict.{Dict, get, get-set}
use wait_a_minute_plugin.Graph.{Edge, list_or_empty, remove_first, detach, unlink}
use wait_a_minute_plugin.Graph.Stored.{twin, Unique}

-- The list under a key.
abbrev pub at : Dict (List Edge) → String → List Edge
at m k = list_or_empty (get m k)

module _ (other : Edge → String) (e : Edge) where
  In-remove_first : (es : List Edge) (x : Edge) → In x (remove_first (twin other e) es) → In x es
  unfolding remove_first
  In-remove_first [] x m = absurd m
  In-remove_first (y ∷ es) x m = elim (Bool-cases (twin other e y)) [
    | inl same ↦
        inr (subst (λ b. In x (if b then es else y ∷ remove_first (twin other e) es)) same m)
    | inr differ ↦
        elim (subst (λ b. In x (if b then es else y ∷ remove_first (twin other e) es)) differ m) [
          | inl head ↦ inl head
          | inr later ↦ inr (In-remove_first es x later)
        ]
  ]

  remove_first-In :
      (es : List Edge) (x : Edge)
      → In x es
      → twin other e x ≡ false
      → In x (remove_first (twin other e) es)
  unfolding remove_first
  remove_first-In [] x m d = absurd m
  remove_first-In (y ∷ es) x m d = elim (Bool-cases (twin other e y)) [
    | inl same ↦ rw same (elim m [ inl head ↦ absurd (clash y head same) | inr later ↦ later ])
    | inr differ ↦
        rw differ (elim m [ inl head ↦ inl head | inr later ↦ inr (remove_first-In es x later d) ])
  ]
    where
      clash : (y : Edge) → x ≡ y → twin other e y ≡ true → ⊥
      clash y h s = cc (ap (twin other e) h, s, d)

  twin_trans : (y z : Edge) → twin other e y ≡ true → twin other e z ≡ true → twin other y z ≡ true
  twin_trans y z a b = ground (
    arith,
    eq_iff (other y) (other e),
    eq_iff (other z) (other e),
    eq_iff (other z) (other y),
    eq_iff y.kind e.kind,
    eq_iff z.kind e.kind,
    eq_iff z.kind y.kind,
  )

  no_twin_left :
      (es : List Edge) (x : Edge)
      → Unique other es
      → In x (remove_first (twin other e) es)
      → twin other e x ≡ false
  unfolding remove_first
  no_twin_left [] x u m = absurd m
  no_twin_left (y ∷ es) x u m = elim (Bool-cases (twin other e y)) [
    | inl same ↦
        let rest =
          subst (λ b. In x (if b then es else y ∷ remove_first (twin other e) es)) same m in
        of_not_true _ λ t. absurd (clash x rest t same)
    | inr differ ↦
        elim (subst (λ b. In x (if b then es else y ∷ remove_first (twin other e) es)) differ m) [
          | inl head ↦ ap (twin other e) head ∙ differ
          | inr later ↦ no_twin_left es x u.1 later
        ]
  ]
    where
      clash : (x : Edge) → In x es → twin other e x ≡ true → twin other e y ≡ true → ⊥
      clash x rest t same = cc (twin_trans y x same t, not_any-In (twin other y) es x u.0 rest)

  Unique-remove_first :
      (es : List Edge) → Unique other es → Unique other (remove_first (twin other e) es)
  unfolding remove_first
  Unique-remove_first [] u = tt
  Unique-remove_first (y ∷ es) u = elim (Bool-cases (twin other e y)) [
    | inl same ↦ rw same u.1
    | inr differ ↦ rw differ (
      not_any_of_In (twin other y) _
          λ x m. not_any-In (twin other y) es x u.0 (In-remove_first es x m),
      Unique-remove_first es u.1,
    )
  ]

module _ (owner other : Edge → String) where
  at-detach :
      (m : Dict (List Edge)) (e : Edge) (k : String)
      → at (detach owner other m e) k
        ≡ (if owner e =? k then remove_first (twin other e) (at m k) else at m k)
  unfolding detach remove_first
  at-detach m e k = elim (Option-cases (get m (owner e))) [
    | inl absent ↦ ground (arith, eq_iff (owner e) k)
    | inr (es, present) ↦
        ground (arith, eq_iff (owner e) k, get-set m (owner e) (remove_first (twin other e) es) k)
  ]

  pub In-unlink :
      (es : List Edge) (m : Dict (List Edge)) (k : String) (x : Edge)
      → In x (at (unlink (detach owner other) m es) k)
      → In x (at m k)
  unfolding unlink
  In-unlink [] m k x h = h
  In-unlink (e ∷ es) m k x h = In-detach e m k x (In-unlink es (detach owner other m e) k x h)
    where
      In-detach :
          (e : Edge) (m : Dict (List Edge)) (k : String) (x : Edge)
          → In x (at (detach owner other m e) k)
          → In x (at m k)
      In-detach e m k x h = elim (Bool-cases (owner e =? k)) [
        | inl same ↦ In-remove_first other e (at m k) x (rw (at-detach m e k, same) at h)
        | inr differ ↦ rw (at-detach m e k, differ) at h
      ]

  pub unlink-In :
      (es : List Edge) (m : Dict (List Edge)) (k : String) (x : Edge)
      → In x (at m k)
      → ((e : Edge) → In e es → twin other e x ≡ false)
      → In x (at (unlink (detach owner other) m es) k)
  unfolding unlink
  unlink-In [] m k x h apart = h
  unlink-In (e ∷ es) m k x h apart =
      unlink-In es (detach owner other m e) k x (detach-In (Bool-cases (owner e =? k)))
        (λ f n. apart f (inr n))
    where
      detach-In :
          ((owner e =? k) ≡ true) ⊎ ((owner e =? k) ≡ false) → In x (at (detach owner other m e) k)
      detach-In (inl same) =
          rw (at-detach m e k, same) (remove_first-In other e (at m k) x h (apart e (inl refl)))
      detach-In (inr differ) = rw (at-detach m e k, differ) h

  pub Unique-detach :
      (m : Dict (List Edge)) (e : Edge)
      → ((k : String) → Unique other (at m k))
      → (k : String) → Unique other (at (detach owner other m e) k)
  Unique-detach m e u k = elim (Bool-cases (owner e =? k)) [
    | inl same ↦ rw (at-detach m e k, same) (Unique-remove_first other e (at m k) (u k))
    | inr differ ↦ rw (at-detach m e k, differ) (u k)
  ]

  pub Unique-unlink :
      (es : List Edge) (m : Dict (List Edge))
      → ((k : String) → Unique other (at m k))
      → (k : String) → Unique other (at (unlink (detach owner other) m es) k)
  unfolding unlink
  Unique-unlink [] m u = u
  Unique-unlink (e ∷ es) m u = Unique-unlink es (detach owner other m e) (Unique-detach m e u)

  pub unlink_clean :
      (es : List Edge) (m : Dict (List Edge)) (e x : Edge)
      → ((k : String) → Unique other (at m k))
      → In e es
      → In x (at (unlink (detach owner other) m es) (owner e))
      → twin other e x ≡ false
  unfolding unlink
  unlink_clean [] m e x u n h = absurd n
  unlink_clean (f ∷ es) m e x u n h = elim n [
    | inl head ↦
        let at_f =
          subst (λ y. In x (at (unlink (detach owner other) (detach owner other m f) es) (owner y)))
            head h in
        let left = In-unlink es (detach owner other m f) (owner f) x at_f in
        ap (λ y. twin other y x) head
        ∙ no_twin_left other f (at m (owner f)) x (u (owner f))
            (rw (at-detach m f (owner f), eq_refl (owner f)) at left)
    | inr later ↦ unlink_clean es (detach owner other m f) e x (Unique-detach m f u) later h
  ]
