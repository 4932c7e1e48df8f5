-- ===== src/Chain/Evidence.antt =====
-- What a chain's last digest says of its rows (src/agents/ledger/row.ts, src/agents/audit.ts).
use ledgerdesk.Prelude.{
  ◌≡◌, refl, sym, ap, ◌∙◌, ◌≢◌, ◌⊎◌, inl, inr, Bool, true, false, List, [], ◌∷◌, ◌++◌, some, length,
  Text, text_eq, text_eq_iff, text_eq_refl, Bool-cases, arith,
}
use ledgerdesk.Prelude.Checked.{Checked, ok, ◌>>=◌, >>=-ok}
use ledgerdesk.Canonical.{is_hex64}
use ledgerdesk.Chain.{Chained, genesis, head_hash, last_hash, digest, verify, verify_after, IsChain}

module _ {C : Type 0} (canonical : C → Checked Text) (sha256_hex : Text → Text) where
  verified_after :
      (b : Bool) (c : Chained C)
      → verify_after canonical sha256_hex b c ≡ ok true
      → (b ≡ true)
        × (t : Text) × (canonical c.content ≡ ok t)
        × (sha256_hex (c.prev_hash ++ t) ≡ c.row_hash)
  unfolding verify_after digest
  verified_after false c e = cc
  verified_after true c e =
      let (again, d, q) =
        >>=-ok (canonical c.content >>= (λ t. ok (sha256_hex (c.prev_hash ++ t))))
          (λ again. ok (text_eq again c.row_hash)) e in
      let (t, k, p) = >>=-ok (canonical c.content) (λ t. ok (sha256_hex (c.prev_hash ++ t))) d in
      let s : text_eq again c.row_hash ≡ true = cc in
      let same : again ≡ c.row_hash = (text_eq_iff again c.row_hash).0 s in (refl, t, k, cc)

  -- What a row that verifies was made of.
  pub verified :
      (c : Chained C)
      → verify canonical sha256_hex c ≡ ok true
      → (is_hex64 c.row_hash ≡ true)
        × (t : Text) × (canonical c.content ≡ ok t)
        × (sha256_hex (c.prev_hash ++ t) ≡ c.row_hash)
  unfolding verify
  verified c e = verified_after (is_hex64 c.row_hash) c e

  -- A row that carries its own digest verifies.
  pub digest-verify :
      (c : Chained C)
      → ((t : Text) → is_hex64 (sha256_hex t) ≡ true)
      → digest canonical sha256_hex c.prev_hash c.content ≡ ok c.row_hash
      → verify canonical sha256_hex c ≡ ok true
  unfolding verify verify_after digest
  digest-verify c hex d =
      let (t, k, p) = >>=-ok (canonical c.content) (λ t. ok (sha256_hex (c.prev_hash ++ t))) d in
      let own : sha256_hex (c.prev_hash ++ t) ≡ c.row_hash = cc in
      let shape : is_hex64 c.row_hash ≡ true = rw (← own) (hex (c.prev_hash ++ t)) in
      rw (shape, d) (ap ok (text_eq_refl c.row_hash))

  hex_row : (c : Chained C) → verify canonical sha256_hex c ≡ ok true → is_hex64 c.row_hash ≡ true
  hex_row c e = (verified c e).0

append_cancel : (s t u v : Text) → length s ≡ length t → s ++ u ≡ t ++ v → (s ≡ t) × (u ≡ v)
append_cancel [] [] u v h e = (refl, e)
append_cancel [] (b ∷ t) u v h e = absurd (omega (arith, h))
append_cancel (a ∷ s) [] u v h e = absurd (omega (arith, h))
append_cancel (a ∷ s) (b ∷ t) u v h e =
    let first : a ≡ b = cc in
    let rest : s ++ u ≡ t ++ v = cc in
    let (same, left) = append_cancel s t u v (omega (arith, h)) rest in (cc, left)

hex-length : (s : Text) → is_hex64 s ≡ true → length s ≡ 64
unfolding is_hex64
hex-length s h = ground arith

genesis-hex : (s t u : Text) → is_hex64 s ≡ true → genesis ++ t ≢ s ++ u
unfolding is_hex64
genesis-hex [] t u h e = ground arith
genesis-hex (c ∷ s) t u h e = ground arith

module _ {C : Type 0} (canonical : C → Checked Text) (sha256_hex : Text → Text) where
  -- What two rows digest to the same determines their predecessors' digests.
  digested_alike :
      (x y : List (Chained C)) (t u : Text)
      → IsChain canonical sha256_hex x
      → IsChain canonical sha256_hex y
      → head_hash (last_hash x) ++ t ≡ head_hash (last_hash y) ++ u
      → (last_hash x ≡ last_hash y) × (t ≡ u)
  digested_alike [] [] t u h k e = (refl, (append_cancel genesis genesis t u refl e).1)
  digested_alike [] (d ∷ y) t u h k e =
      absurd (genesis-hex d.row_hash t u (hex_row canonical sha256_hex d k.0) e)
  digested_alike (c ∷ x) [] t u h k e =
      absurd (genesis-hex c.row_hash u t (hex_row canonical sha256_hex c h.0) (sym e))
  digested_alike (c ∷ x) (d ∷ y) t u h k e =
      let long = hex-length c.row_hash (hex_row canonical sha256_hex c h.0) in
      let wide = hex-length d.row_hash (hex_row canonical sha256_hex d k.0) in
      let (same, left) = append_cancel c.row_hash d.row_hash t u (long ∙ sym wide) e in
      (ap some same, left)

  -- Two chains with rows that read the same, place by place.
  abbrev pub AreAlike : List (Chained C) → List (Chained C) → Type 0
  AreAlike [] [] = Unit
  AreAlike (c ∷ x) (d ∷ y) =
      (canonical c.content ≡ canonical d.content)
      × (c.prev_hash ≡ d.prev_hash)
      × (c.row_hash ≡ d.row_hash)
      × AreAlike x y
  AreAlike _ _ = ⊥

  abbrev pub Collision : Type 0
  Collision = (s : Text) × (t : Text) × (s ≢ t) × (sha256_hex s ≡ sha256_hex t)

  -- Two chains that verify and end in the same digest have equally many rows, which serialise the
  -- same place by place, or else they show two texts with one digest.
  pub same_head :
      (x y : List (Chained C))
      → IsChain canonical sha256_hex x
      → IsChain canonical sha256_hex y
      → last_hash x ≡ last_hash y
      → AreAlike x y ⊎ Collision
  same_head [] [] h k e = inl tt
  same_head [] (d ∷ y) h k e = cc
  same_head (c ∷ x) [] h k e = cc
  same_head (c ∷ x) (d ∷ y) (hc, pc, hx) (hd, pd, hy) e =
      let row : c.row_hash ≡ d.row_hash = cc in
      let (_, t, ct, st) = verified canonical sha256_hex c hc in
      let (_, u, du, su) = verified canonical sha256_hex d hd in
      let digests : sha256_hex (c.prev_hash ++ t) ≡ sha256_hex (d.prev_hash ++ u) = cc in
      elim (Bool-cases (text_eq (c.prev_hash ++ t) (d.prev_hash ++ u))) [
        | inr off ↦ inr (
          c.prev_hash ++ t,
          d.prev_hash ++ u,
          (λ s. absurd (cc ((text_eq_iff (c.prev_hash ++ t) (d.prev_hash ++ u)).1 s, off))),
          digests,
        )
        | inl on ↦
            let whole = (text_eq_iff (c.prev_hash ++ t) (d.prev_hash ++ u)).0 on in
            let (last, covered) =
              digested_alike x y t u hx hy
                (ap (λ p. p ++ t) (sym pc) ∙ whole ∙ ap (λ p. p ++ u) pd) in
            elim (same_head x y hx hy last) [
              | inl alike ↦ inl (cc, rw (pc, pd) (ap head_hash last), row, alike)
              | inr collision ↦ inr collision
            ]
      ]
