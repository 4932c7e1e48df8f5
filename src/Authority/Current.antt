-- ===== src/Authority/Current.antt =====
-- The declarations that count at an instant still count later
-- (`applicableInvestitures` and `resolveDeclarations`).
use mathlib.Core.Path.{subst}
use mathlib.Core.List.{Memᴰ}
use ledgerdesk.Prelude.{
  ◌≡◌, refl, sym, ◌∙◌, ◌↔◌, inl, inr, Bool, true, false, ◌&&◌, List, [], ◌∷◌, map, select, any,
  if◌then◌else◌, Text, text_eq, text_eq_iff, Bool-cases, arith, ℤ, ltb_ℤ,
}
use ledgerdesk.Prelude.Members.{Mem-select, select-Mem, any-Mem, Mem-any, Mem-map, map-Mem}
use ledgerdesk.Authority.{Scope, contains}
use ledgerdesk.Authority.Declarations.{
  Investiture, RevalidationEvent, Resolution, declaration_deadline, or_zero, has_started, text_is,
  number_is, is_single, signature, resolves, selected_ids, is_chosen, chosen, resolve_declarations,
  is_applicable, applicable_investitures,
}
use ledgerdesk.Authority.Grants.{min_ℤ, lowered, is_there}
use ledgerdesk.Authority.Listed.{Mem-there, is_single-within, Mem-sort}

kept : (a b d : Bool) → (b ≡ true → d ≡ true) → (a && b) ≡ true → (a && d) ≡ true
kept true b d g h = g h
kept false b d g h = cc

module _ (t : ℤ) where
  pub min-later : (a b : ℤ) → ltb_ℤ t (min_ℤ a b) ≡ true → (ltb_ℤ t a ≡ true) × (ltb_ℤ t b ≡ true)
  min-later a b h = ground arith

  -- An instant before the lowered deadline is before each term of it.
  pub lowered-later :
      (events : List RevalidationEvent) (current : List Investiture) (d : ℤ)
      → ltb_ℤ t (lowered events current d) ≡ true
      → (ltb_ℤ t d ≡ true)
        × ((x : Investiture)
            → Memᴰ x current
            → (ltb_ℤ t x.expires_at ≡ true)
              × (ltb_ℤ t (or_zero (declaration_deadline x.declaration events)) ≡ true))
  lowered-later events [] d h = (h, λ x m. elim m [ ])
  lowered-later events (i ∷ current) d h =
      let (k, r) = lowered-later events current _ h in
      let (both, until) =
        min-later (min_ℤ d i.expires_at) (or_zero (declaration_deadline i.declaration events)) k in
      let (before, expiry) = min-later d i.expires_at both in
      (before, λ x m. elim m [ Memᴰ.head e ↦ rw e (expiry, until) | Memᴰ.tail n ↦ r x n ])

module _ (before after : List Investiture) (resolutions : List Resolution) (permission scope : Text)
    (inside : (x : Investiture) → Memᴰ x after → Memᴰ x before) where
  resolves-more :
      (one other : List Investiture) (r : Resolution)
      → (any (λ i. text_eq (Investiture.id i) r.selected_id) one ≡ true
          → any (λ i. text_eq (Investiture.id i) r.selected_id) other ≡ true)
      → resolves one permission scope r ≡ true
      → resolves other permission scope r ≡ true
  resolves-more one other r more =
      kept r.active _ _
        (kept (text_eq r.scope_ref scope) _ _ (kept (text_eq r.permission_id permission) _ _ more))

  selected_ids-Mem :
      (current : List Investiture) (r : Resolution)
      → Memᴰ r resolutions
      → resolves current permission scope r ≡ true
      → Memᴰ r.selected_id (selected_ids current resolutions permission scope)
  selected_ids-Mem current r n q =
      Mem-map (λ r. r.selected_id) (select (resolves current permission scope) resolutions)
        (select-Mem (resolves current permission scope) resolutions n q)

  Mem-selected_ids :
      (current : List Investiture) {t : Text}
      → Memᴰ t (selected_ids current resolutions permission scope)
      → (r : Resolution) × Memᴰ r resolutions
        × (resolves current permission scope r ≡ true)
        × (t ≡ r.selected_id)
  Mem-selected_ids current m =
      let (r, k, e) =
        map-Mem (λ r. r.selected_id) (select (resolves current permission scope) resolutions) m in
      let (n, q) = Mem-select (resolves current permission scope) resolutions k in (r, n, q, e)

  selected_ids-inside :
      (t : Text)
      → Memᴰ t (selected_ids after resolutions permission scope)
      → Memᴰ t (selected_ids before resolutions permission scope)
  selected_ids-inside t m =
      let (r, n, q, e) = Mem-selected_ids after m in
      let more =
        resolves-more after before r
          (λ h.
            let (x, l, p) = any-Mem (λ i. text_eq (Investiture.id i) r.selected_id) after h in
            Mem-any (λ i. text_eq (Investiture.id i) r.selected_id) before (inside x l) p)
          q in
      subst (λ s. Memᴰ s (selected_ids before resolutions permission scope)) (sym e)
        (selected_ids-Mem before r n more)

  signatures-inside : (t : Text) → Memᴰ t (map signature after) → Memᴰ t (map signature before)
  signatures-inside t m =
      let (x, k, e) = map-Mem signature after m in
      subst (λ s. Memᴰ s (map signature before)) (sym e) (Mem-map signature before (inside x k))

  abbrev picked : Bool → List Text → List Investiture → List Investiture
  picked b selected current = if b then select (is_chosen selected) current else []

  picked-there :
      (b : Bool) (x : Investiture)
      → is_single (selected_ids before resolutions permission scope) ≡ b
      → Memᴰ x (picked b (selected_ids before resolutions permission scope) before)
      → Memᴰ x after
      → is_there (chosen after (selected_ids after resolutions permission scope)) ≡ true
  picked-there false x on m n = elim m [ ]
  picked-there true x on m n =
      let (k, h) =
        Mem-select (is_chosen (selected_ids before resolutions permission scope)) before m in
      let (s, l, e) =
        any-Mem (λ s. text_eq s (Investiture.id x))
          (selected_ids before resolutions permission scope) h in
      let (r, o, q, d) = Mem-selected_ids before l in
      let own : r.selected_id ≡ x.id = sym d ∙ (text_eq_iff s x.id).0 e in
      let held = selected_ids-Mem after r o (
        resolves-more before after r
          (λ h.
            Mem-any (λ i. text_eq (Investiture.id i) r.selected_id) after n
              ((text_eq_iff x.id r.selected_id).1 (sym own)))
          q) in
      let single =
        is_single-within (selected_ids before resolutions permission scope)
          (selected_ids after resolutions permission scope) on held selected_ids-inside in
      rw single (
        Mem-there (select (is_chosen (selected_ids after resolutions permission scope)) after) (
          select-Mem (is_chosen (selected_ids after resolutions permission scope)) after n (
            Mem-any (λ s. text_eq s (Investiture.id x))
              (selected_ids after resolutions permission scope) held
              ((text_eq_iff r.selected_id x.id).1 own))))

  -- What counts later is there, if an element that counted earlier is still in force.
  pub resolve-there :
      (x : Investiture)
      → Memᴰ x (resolve_declarations before resolutions permission scope)
      → Memᴰ x after
      → is_there (resolve_declarations after resolutions permission scope) ≡ true
  unfolding resolve_declarations
  resolve-there x m n = elim (Bool-cases (is_single (map signature after))) [
    | inl single ↦ rw single (Mem-there after n)
    | inr several ↦ elim (Bool-cases (is_single (map signature before))) [
      | inl on ↦ absurd (
          cc (
            several,
            is_single-within (map signature before) (map signature after) on
                (Mem-map signature after n) signatures-inside,
          ))
      | inr off ↦ rw several (
          picked-there (is_single (selected_ids before resolutions permission scope)) x refl
            (rw off at m) n)
    ]
  ]

chosen-Mem :
    (b : Bool) (selected : List Text) (current : List Investiture) {x : Investiture}
    → Memᴰ x (if b then select (is_chosen selected) current else [])
    → Memᴰ x current
chosen-Mem true selected current m = (Mem-select (is_chosen selected) current m).0
chosen-Mem false selected current m = elim m [ ]

pub resolve-Mem :
    (current : List Investiture) (resolutions : List Resolution) (permission scope : Text)
    {x : Investiture}
    → Memᴰ x (resolve_declarations current resolutions permission scope)
    → Memᴰ x current
unfolding resolve_declarations
resolve-Mem current resolutions permission scope m =
    elim (Bool-cases (is_single (map signature current))) [
      | inl on ↦ rw on at m
      | inr off ↦
          chosen-Mem (is_single (selected_ids current resolutions permission scope))
            (selected_ids current resolutions permission scope) current (rw off at m)
    ]

moved :
    (a b c d : Bool)
    → (a ≡ true → c ≡ true)
    → (b ≡ true → d ≡ true)
    → (a && b) ≡ true
    → (c && d) ≡ true
moved true b c d f g h = rw (f refl) (g h)
moved false b c d f g h = cc

module _ (scopes : List Scope) (events : List RevalidationEvent)
    (person permission scope : Text) where
  -- An investiture that is applicable at one instant is so at another at which it is in force.
  pub is_applicable-moved :
      (n m : ℤ) (i : Investiture)
      → (ltb_ℤ n i.expires_at ≡ true → ltb_ℤ m i.expires_at ≡ true)
      → (has_started n i.declaration.starts_at ≡ true
          → has_started m i.declaration.starts_at ≡ true)
      → (ltb_ℤ n (or_zero (declaration_deadline i.declaration events)) ≡ true
          → ltb_ℤ m (or_zero (declaration_deadline i.declaration events)) ≡ true)
      → is_applicable scopes events person permission scope n i ≡ true
      → is_applicable scopes events person permission scope m i ≡ true
  unfolding is_applicable
  is_applicable-moved n m i e s l h =
      kept i.active _ _
        (kept (text_eq i.person_ref person) _ _ (
          kept (text_eq i.permission_id permission) _ _ (
            moved (ltb_ℤ n i.expires_at) _ (ltb_ℤ m i.expires_at) _ e (
              kept (contains scopes i.scope_ref scope) _ _ (
                kept (text_is person i.declaration.holder_person_ref) _ _ (
                  kept (number_is i.revision i.declaration.revision) _ _ (
                    moved (has_started n i.declaration.starts_at) _
                      (has_started m i.declaration.starts_at) _ s
                      (moved (ltb_ℤ n (or_zero (declaration_deadline i.declaration events))) _
                        (ltb_ℤ m (or_zero (declaration_deadline i.declaration events))) _ l
                        (λ c. c)))))))))
        h

  pub applicable-Mem :
      (n : ℤ) (is : List Investiture) (x : Investiture)
      → Memᴰ x (applicable_investitures scopes events person permission scope n is)
        ↔ (Memᴰ x is × (is_applicable scopes events person permission scope n x ≡ true))
  unfolding applicable_investitures
  applicable-Mem n is x = (
    λ m. Mem-select (is_applicable scopes events person permission scope n) is ((Mem-sort x _).0 m),
    λ k.
        (Mem-sort x _).1
          (select-Mem (is_applicable scopes events person permission scope n) is k.0 k.1),
  )
