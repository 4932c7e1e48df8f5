-- ===== src/Authority/Lasting.antt =====
-- Until when an answer of `allows` stands (src/server/access/invitation_authority.ts).
use mathlib.Core.List.{Memᴰ}
use ledgerdesk.Prelude.{
  ◌≡◌, refl, inl, inr, ℕ, zero, suc, Bool, true, false, ◌&&◌, not, List, [], ◌∷◌, ◌++◌, Option,
  none, some, find, Text, text, text_eq, Bool-cases, ℤ, ltb_ℤ, leb_ℤ,
}
use ledgerdesk.Authority.{contains, has}
use ledgerdesk.Authority.Declarations.{
  Investiture, declaration_deadline, or_zero, has_started, applicable_investitures,
}
use ledgerdesk.Authority.Grants.{
  AccessAccount, Permission, Support, GrantRecord, Snapshot, Standing, and_then, else_ask, until,
  for_some, current_declarations, by_declarations, investiture_allows, grant_holds, grant_checked,
  by_kind, support_alive, grant_alive, is_fitting, some_grant, allows,
}
use ledgerdesk.Authority.Current.{
  lowered-later, resolve-there, resolve-Mem, is_applicable-moved, applicable-Mem,
}
use ledgerdesk.Authority.Listed.{there-Mem}
use ledgerdesk.Authority.Deadline.{
  started-later, earlier, IsLasting, never-IsLasting, until-IsLasting, for_some-IsLasting,
  choice-IsLasting, and_then-IsLasting, else_ask-IsLasting, kind-IsLasting,
}

module _ (s : Snapshot) (now t : ℤ) (later : leb_ℤ now t ≡ true)
    (settled : (i : Investiture)
      → Memᴰ i s.investitures
      → has_started t i.declaration.starts_at ≡ true
      → has_started now i.declaration.starts_at ≡ true) where
  declarations-IsLasting :
      (required : Bool) (person permission scope : Text)
      → IsLasting now t
          (λ n. by_declarations s required (current_declarations s n person permission scope))
  declarations-IsLasting false person permission scope d e h = (h, λ k. refl)
  declarations-IsLasting true person permission scope d e h =
      let (before, held) =
        lowered-later t s.revalidation_events (current_declarations s now person permission scope) d
          h in
      (
        before,
        λ k.
            let (x, m) = there-Mem (current_declarations s now person permission scope) k in
            let (expiry, until) = held x m in
            let (listed, was) =
              (applicable-Mem s.scopes s.revalidation_events person permission scope now
                  s.investitures x).0
                (resolve-Mem _ s.resolutions permission scope m) in
            let stays =
              (applicable-Mem s.scopes s.revalidation_events person permission scope t
                  s.investitures x).1
                (
                  listed,
                  is_applicable-moved s.scopes s.revalidation_events person permission scope now t x
                      (λ _. expiry) (started-later now t x.declaration.starts_at later) (λ _. until)
                      was,
                ) in
            resolve-there
              (applicable_investitures s.scopes s.revalidation_events person permission scope now
                s.investitures)
              (applicable_investitures s.scopes s.revalidation_events person permission scope t
                s.investitures)
              s.resolutions permission scope
              (λ y n.
                let (there, is) =
                  (applicable-Mem s.scopes s.revalidation_events person permission scope t
                      s.investitures y).0
                    n in
                (applicable-Mem s.scopes s.revalidation_events person permission scope now
                    s.investitures y).1
                  (
                    there,
                    is_applicable-moved s.scopes s.revalidation_events person permission scope t now
                        y (earlier now t y.expires_at later) (settled y there)
                        (earlier now t
                          (or_zero (declaration_deadline y.declaration s.revalidation_events))
                          later)
                        is,
                  ))
              x m stays,
      )

  investiture-IsLasting :
      (person permission scope : Text)
      → IsLasting now t (λ n. investiture_allows s n person permission scope)
  unfolding investiture_allows
  investiture-IsLasting person permission scope =
      for_some-IsLasting now t (find (λ p. text_eq (Permission.id p) permission) s.permissions)
        (λ p n.
          by_declarations s p.requires_investiture
            (current_declarations s n person permission scope))
        (λ p. declarations-IsLasting p.requires_investiture person permission scope)

  grant_checked-IsLasting :
      (g : GrantRecord) (rest : ℤ → ℤ → Standing)
      → IsLasting now t rest
      → IsLasting now t (λ n. grant_checked s n g (rest n))
  grant_checked-IsLasting g rest lasts =
      for_some-IsLasting now t (find (λ a. text_eq (AccessAccount.id a) g.account_id) s.accounts)
        (λ a n.
          for_some (find (λ p. text_eq (Permission.id p) g.permission_id) s.permissions)
            (grant_holds s n g (rest n) a))
        (λ a.
          for_some-IsLasting now t
            (find (λ p. text_eq (Permission.id p) g.permission_id) s.permissions)
            (λ p n. grant_holds s n g (rest n) a p)
            (λ p.
              choice-IsLasting now t
                (not a.restricted && (p.active && contains s.scopes g.scope_ref g.scope_ref))
                (λ n d.
                  and_then (investiture_allows s n a.person_ref g.permission_id g.scope_ref d)
                    (rest n))
                (λ n d. (false, d))
                (and_then-IsLasting now t
                  (λ n. investiture_allows s n a.person_ref g.permission_id g.scope_ref) rest
                  (investiture-IsLasting a.person_ref g.permission_id g.scope_ref) lasts)
                (never-IsLasting now t)))

  mutual
    unfolding support_alive grant_alive

    support_alive-IsLasting :
        (left : ℕ) (visited : List Text) (id : Text)
        → IsLasting now t (support_alive s left visited id)
    support_alive-IsLasting zero visited id = never-IsLasting now t
    support_alive-IsLasting (suc left) visited id =
        let parent : Text → ℤ → ℤ → Standing = λ a.
          grant_alive s left ((text "s:" ++ id) ∷ visited)
            (find (λ g. text_eq (GrantRecord.id g) a) s.grants) in
        for_some-IsLasting now t (find (λ x. text_eq (Support.id x) id) s.supports)
          (λ x n.
            until (x.active && not (has visited (text "s:" ++ id))) n x.expires_at
              (by_kind s x.kind (λ a. parent a n)))
          (λ x.
            until-IsLasting now t (x.active && not (has visited (text "s:" ++ id))) x.expires_at
              (λ n. by_kind s x.kind (λ a. parent a n))
              (kind-IsLasting now t s x.kind parent (λ a.
                grant_alive-IsLasting left ((text "s:" ++ id) ∷ visited)
                  (find (λ g. text_eq (GrantRecord.id g) a) s.grants))))

    grant_alive-IsLasting :
        (left : ℕ) (visited : List Text) (g : Option GrantRecord)
        → IsLasting now t (grant_alive s left visited g)
    grant_alive-IsLasting zero visited g = never-IsLasting now t
    grant_alive-IsLasting (suc left) visited none = never-IsLasting now t
    grant_alive-IsLasting (suc left) visited (some g) =
        let support = support_alive s left ((text "g:" ++ g.id) ∷ visited) g.support_ref in
        until-IsLasting now t (not g.withdrawn && not (has visited (text "g:" ++ g.id)))
          g.expires_at (λ n. grant_checked s n g (support n))
          (grant_checked-IsLasting g support
            (support_alive-IsLasting left ((text "g:" ++ g.id) ∷ visited) g.support_ref))

  some_grant-IsLasting :
      (fits : GrantRecord → Bool) (grants : List GrantRecord)
      → IsLasting now t (λ n. some_grant s n fits grants)
  some_grant-IsLasting fits [] = never-IsLasting now t
  some_grant-IsLasting fits (g ∷ grants) =
      choice-IsLasting now t (fits g)
        (λ n d. else_ask (grant_alive s 32 [] (some g) n d) (some_grant s n fits grants))
        (λ n. some_grant s n fits grants)
        (else_ask-IsLasting now t (grant_alive s 32 [] (some g)) (λ n. some_grant s n fits grants)
          (grant_alive-IsLasting 32 [] (some g)) (some_grant-IsLasting fits grants))
        (some_grant-IsLasting fits grants)

  -- An account that is allowed something at an instant is still allowed it, on the same data, at
  -- every later instant before the deadline that the question left; no investiture may start
  -- between the two instants.
  pub allows-lasts :
      (a : AccessAccount) (permission faculty scope : Text) (d e : ℤ)
      → (allows s a permission faculty scope now d).0 ≡ true
      → ltb_ℤ t (allows s a permission faculty scope now d).1 ≡ true
      → (allows s a permission faculty scope t e).0 ≡ true
  unfolding allows
  allows-lasts a permission faculty scope d e holds before = elim (Bool-cases a.restricted) [
    | inl on ↦ absurd (cc (rw on at holds))
    | inr off ↦ rw off (
        (and_then-IsLasting now t (λ n. investiture_allows s n a.person_ref permission scope)
            (λ n. some_grant s n (is_fitting s a permission faculty scope) s.grants)
            (investiture-IsLasting a.person_ref permission scope)
            (some_grant-IsLasting (is_fitting s a permission faculty scope) s.grants) d e
            (rw off at before)).1
          (rw off at holds))
  ]
