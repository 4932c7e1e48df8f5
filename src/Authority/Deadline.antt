-- ===== src/Authority/Deadline.antt =====
-- Questions whose positive answers stand until the deadline, and how they are combined
-- (`deadline` in src/server/access/invitation_authority.ts).
use ledgerdesk.Prelude.{
  ◌≡◌, refl, inl, inr, Bool, true, false, ◌&&◌, Option, none, some, if◌then◌else◌, Text, Bool-cases,
  arith, ℤ, ltb_ℤ, leb_ℤ,
}
use ledgerdesk.Authority.Declarations.{has_started}
use ledgerdesk.Authority.Grants.{
  SupportKind, domain, delegated, Snapshot, Standing, min_ℤ, and_then, else_ask, until, for_some,
  by_kind,
}
use ledgerdesk.Authority.Current.{min-later}

pub started-later :
    (now t : ℤ) (o : Option ℤ)
    → leb_ℤ now t ≡ true
    → has_started now o ≡ true
    → has_started t o ≡ true
started-later now t none later h = cc
started-later now t (some n) later h = ground arith

pub earlier : (now t e : ℤ) → leb_ℤ now t ≡ true → ltb_ℤ t e ≡ true → ltb_ℤ now e ≡ true
earlier now t e later h = ground arith

module _ (now t : ℤ) where
  -- A question that is asked at an instant, of a deadline. Where it leaves the deadline after `t`,
  -- it found it so, and a positive answer stands at `t`.
  abbrev pub IsLasting : (ℤ → ℤ → Standing) → Type 0
  IsLasting ask =
      (d e : ℤ)
      → ltb_ℤ t (ask now d).1 ≡ true
      → (ltb_ℤ t d ≡ true) × ((ask now d).0 ≡ true → (ask t e).0 ≡ true)

  pub never-IsLasting : IsLasting (λ n d. (false, d))
  never-IsLasting d e h = (h, λ k. cc)

  pub always-IsLasting : IsLasting (λ n d. (true, d))
  always-IsLasting d e h = (h, λ k. refl)

  still :
      (fit : Bool) (x : ℤ)
      → (fit && ltb_ℤ now x) ≡ true
      → ltb_ℤ t x ≡ true
      → (fit && ltb_ℤ t x) ≡ true
  still true x h k = k
  still false x h k = cc

  pub until-IsLasting :
      (fit : Bool) (x : ℤ) (rest : ℤ → ℤ → Standing)
      → IsLasting rest
      → IsLasting (λ n. until fit n x (rest n))
  until-IsLasting fit x rest lasts d e h = elim (Bool-cases (fit && ltb_ℤ now x)) [
    | inr off ↦ (rw off at h, λ k. absurd (cc (rw off at k)))
    | inl on ↦
        let (u, v) = lasts (min_ℤ d x) (min_ℤ e x) (rw on at h) in
        let (before, expiry) = min-later t d x u in
        (before, λ k. rw (still fit x on expiry) (v (rw on at k)))
  ]

  pub for_some-IsLasting :
      {A : Type 0} (o : Option A) (rest : A → ℤ → ℤ → Standing)
      → ((a : A) → IsLasting (rest a))
      → IsLasting (λ n. for_some o (λ a. rest a n))
  for_some-IsLasting none rest lasts = never-IsLasting
  for_some-IsLasting (some a) rest lasts = lasts a

  pub choice-IsLasting :
      (b : Bool) (ask other : ℤ → ℤ → Standing)
      → IsLasting ask
      → IsLasting other
      → IsLasting (λ n d. if b then ask n d else other n d)
  choice-IsLasting true ask other first second = first
  choice-IsLasting false ask other first second = second

  module _ (rest : ℤ → ℤ → Standing) (lasts : IsLasting rest) (d : ℤ) where
    and_then-later :
        (a b : Standing)
        → (ltb_ℤ t a.1 ≡ true → (ltb_ℤ t d ≡ true) × (a.0 ≡ true → b.0 ≡ true))
        → ltb_ℤ t (and_then a (rest now)).1 ≡ true
        → (ltb_ℤ t d ≡ true) × ((and_then a (rest now)).0 ≡ true → (and_then b (rest t)).0 ≡ true)
    and_then-later (false, m) b first h = ((first h).0, λ k. cc)
    and_then-later (true, m) (false, n) first h =
        let (u, v) = lasts m n h in absurd (cc ((first u).1 refl))
    and_then-later (true, m) (true, n) first h = let (u, v) = lasts m n h in ((first u).0, v)

    else_ask-later :
        (a b : Standing)
        → (ltb_ℤ t a.1 ≡ true → (ltb_ℤ t d ≡ true) × (a.0 ≡ true → b.0 ≡ true))
        → ltb_ℤ t (else_ask a (rest now)).1 ≡ true
        → (ltb_ℤ t d ≡ true) × ((else_ask a (rest now)).0 ≡ true → (else_ask b (rest t)).0 ≡ true)
    else_ask-later (true, m) (true, n) first h = ((first h).0, λ k. refl)
    else_ask-later (true, m) (false, n) first h = absurd (cc ((first h).1 refl))
    else_ask-later (false, m) (true, n) first h =
        let (u, v) = lasts m n h in ((first u).0, λ k. refl)
    else_ask-later (false, m) (false, n) first h = let (u, v) = lasts m n h in ((first u).0, v)

  pub and_then-IsLasting :
      (ask rest : ℤ → ℤ → Standing)
      → IsLasting ask
      → IsLasting rest
      → IsLasting (λ n d. and_then (ask n d) (rest n))
  and_then-IsLasting ask rest first lasts d e h =
      and_then-later rest lasts d (ask now d) (ask t e) (first d e) h

  pub else_ask-IsLasting :
      (ask rest : ℤ → ℤ → Standing)
      → IsLasting ask
      → IsLasting rest
      → IsLasting (λ n d. else_ask (ask n d) (rest n))
  else_ask-IsLasting ask rest first lasts d e h =
      else_ask-later rest lasts d (ask now d) (ask t e) (first d e) h

  pub kind-IsLasting :
      (s : Snapshot) (kind : SupportKind) (rest : Text → ℤ → ℤ → Standing)
      → ((a : Text) → IsLasting (rest a))
      → IsLasting (λ n. by_kind s kind (λ a. rest a n))
  kind-IsLasting s domain rest lasts = always-IsLasting
  kind-IsLasting s (delegated a) rest lasts = lasts a
