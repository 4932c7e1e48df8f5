-- ===== src/Ledger/Examples.antt =====
-- A short run of the ledger, under a digest that counts.
use ledgerdesk.Prelude.{
  ◌≡◌, ◌≢◌, refl, sym, ◌↔◌, ◌⊎◌, ℕ, zero, suc, ◌%◌, [], ◌∷◌, ◌++◌, is_space, Option, none, true,
  false, Bool, ◌&&◌, ◌||◌, all, leb, Text, text, text_eq, text_lt, if◌then◌else◌, length, negsuc,
  arith,
}
use ledgerdesk.Prelude.Checked.{Checked, ok, throws}
use ledgerdesk.Prelude.Decimal.{value}
use ledgerdesk.Canonical.{
  null, object, end, member, canonical_json, is_hex64, hex_digit, braces, format_aud,
}
use ledgerdesk.Canonical.Parts.{IsLegible}
use ledgerdesk.Chain.{genesis, head_hash, last_hash, IsChain}
use ledgerdesk.Chain.Evidence.{AreAlike, Collision}
use ledgerdesk.Ledger.{
  LedgerRowContent, ChainedRow, checkpoint, system, canonical_row, covered, link_row,
  verify_row_hash,
}
use ledgerdesk.Ledger.Linking.{
  Attached, link_row-Attached, link_row_lem, hex-ne-genesis, verify_row_hash-same_head,
}
use ledgerdesk.Ledger.Columns.{Agree, IsReadable, canonical_row_iff}
use ledgerdesk.Ledger.Money.{micro_from_numeric_text, micro_from_numeric_text-format_aud}
use ledgerdesk.Ledger.Store.{
  Table, Admission, admitted, LedgerHead, appended, write_failed, rows_of, read_head, map_option,
  append,
}
use ledgerdesk.Ledger.Store.Runs.{IsRun, AreRuns}
use ledgerdesk.Ledger.Store.Appending.{Settled, append-Settled}
use ledgerdesk.Ledger.Store.Alone.{undisturbed, append-appends, append-blind}

fill : ℕ → ℕ → Text
fill zero c = []
fill (suc n) c = c ∷ fill n c

-- Sixty-four times one hexadecimal digit, which follows the length of the text.
sample_digest : Text → Text
unfolding hex_digit
sample_digest t = fill 64 (hex_digit (length t % 16))

fill-length : (n c : ℕ) → length (fill n c) ≡ n
unfolding fill
fill-length zero c = refl
fill-length (suc n) c = omega (arith, fill-length n c)

fill-hex :
    (n c : ℕ)
    → ((leb 97 c && leb c 102) || (leb 48 c && leb c 57)) ≡ true
    → all (λ d. (leb 97 d && leb d 102) || (leb 48 d && leb d 57)) (fill n c) ≡ true
unfolding fill
fill-hex zero c h = refl
fill-hex (suc n) c h = ground (arith, fill-hex n c h)

sample_digest-hex : (t : Text) → is_hex64 (sample_digest t) ≡ true
unfolding sample_digest is_hex64 hex_digit
sample_digest-hex t = ground (
  arith,
  fill-length 64 (hex_digit (length t % 16)),
  fill-hex 64 (hex_digit (length t % 16)) (ground arith),
)

abbrev sample_row : LedgerRowContent
sample_row = record {
  run_id = text "r";
  seq = 1;
  org_id = text "o";
  ticket_id = none;
  agent = system;
  prompt_version_id = none;
  model_requested = none;
  model_returned = none;
  sampling = none;
  seed = none;
  input_hash = none;
  input_path = none;
  prompt_hash = none;
  response_hash = none;
  state_hash = text "s";
  split_id = none;
  toolchain = object (member (text "b") null (member (text "a") null end));
  restarts = 0;
  tokens_in = 0;
  tokens_out = 0;
  cost_aud = text "0.000000";
  latency_ms = 0;
  cum_tokens = 0;
  class = checkpoint;
  output = object end;
  confidence = none;
  ts = text "2026-01-01T00:00:00.000Z";
}

abbrev same_row : LedgerRowContent
same_row = record sample_row {
  toolchain = object (member (text "a") null (member (text "b") null end));
}

text_or_empty : Checked Text → Text
text_or_empty (ok t) = t
text_or_empty (throws e) = []

sample_text : Text
unfolding text_or_empty canonical_row
sample_text = text_or_empty (canonical_row sample_row)

sample_written : canonical_row sample_row ≡ ok sample_text
unfolding sample_text text_or_empty canonical_row covered canonical_json text_lt
sample_written = refl

sample_row-IsReadable : IsReadable sample_row
unfolding IsReadable
sample_row-IsReadable =
    (unfold IsLegible in tt, unfold IsLegible in (tt, (tt, tt)), unfold IsLegible in tt)

same_row-IsReadable : IsReadable same_row
unfolding IsReadable
same_row-IsReadable =
    (unfold IsLegible in tt, unfold IsLegible in (tt, (tt, tt)), unfold IsLegible in tt)

canonical_row_iff_example : (canonical_row same_row ≡ ok sample_text) ↔ Agree sample_row same_row
canonical_row_iff_example =
    canonical_row_iff sample_row same_row sample_text sample_row-IsReadable same_row-IsReadable
      sample_written

sample_linked : ChainedRow
unfolding sample_text
sample_linked = record {
  content = sample_row;
  prev_hash = genesis;
  row_hash = sample_digest (genesis ++ sample_text);
}

sample_links : link_row sample_digest sample_row none ≡ ok sample_linked
unfolding sample_linked
sample_links = link_row_lem sample_digest sample_row none sample_text sample_written (
    hex-ne-genesis (sample_digest (genesis ++ sample_text))
      (sample_digest-hex (genesis ++ sample_text)))

sample-Attached : Attached sample_digest sample_row none sample_linked
sample-Attached =
    link_row-Attached sample_digest sample_row none sample_linked sample_digest-hex sample_links

sample_linked-IsChain : IsChain canonical_row sample_digest (sample_linked ∷ [])
unfolding verify_row_hash sample_linked
sample_linked-IsChain = (sample-Attached.verifies, refl, tt)

verify_row_hash-same_head_example :
    AreAlike canonical_row sample_digest (sample_linked ∷ []) (sample_linked ∷ [])
    ⊎ Collision canonical_row sample_digest
verify_row_hash-same_head_example =
    verify_row_hash-same_head sample_digest (sample_linked ∷ []) (sample_linked ∷ [])
      sample_linked-IsChain sample_linked-IsChain refl

build_sample : Option LedgerHead → LedgerRowContent
build_sample head = sample_row

admit_all : ChainedRow → Table → Admission
admit_all c table = admitted

empty-AreRuns : AreRuns sample_digest []
empty-AreRuns run = tt

append-Settled_example :
    Settled sample_digest admit_all undisturbed
      (text "r")
      (text "o")
      build_sample
      (append sample_digest admit_all undisturbed (text "r") (text "o") build_sample [])
append-Settled_example =
    append-Settled sample_digest admit_all undisturbed (text "r") (text "o") build_sample
      sample_digest-hex (λ n t h. h) [] empty-AreRuns

sample_links_built :
    link_row sample_digest
      (build_sample (read_head (text "r") (text "o") []))
      (map_option (λ h. h.row_hash) (read_head (text "r") (text "o") []))
    ≡ ok sample_linked
unfolding build_sample read_head
sample_links_built = sample_links

append-appends_example :
    append sample_digest admit_all undisturbed (text "r") (text "o") build_sample []
    ≡ (appended sample_linked, sample_linked ∷ [])
append-appends_example =
    append-appends sample_digest admit_all (text "r") (text "o") build_sample [] sample_linked
      sample_digest-hex empty-AreRuns sample_links_built (unfold sample_linked in refl)
      (unfold sample_linked in tt) (unfold sample_linked in tt) (unfold admit_all in refl)

abbrev foreign_row : LedgerRowContent
foreign_row = record sample_row { org_id = text "p" }

foreign_text : Text
unfolding text_or_empty canonical_row
foreign_text = text_or_empty (canonical_row foreign_row)

foreign_written : canonical_row foreign_row ≡ ok foreign_text
unfolding foreign_text text_or_empty canonical_row covered canonical_json text_lt braces
foreign_written = refl

foreign_linked : ChainedRow
unfolding foreign_text
foreign_linked = record {
  content = foreign_row;
  prev_hash = genesis;
  row_hash = sample_digest (genesis ++ foreign_text);
}

foreign_links : link_row sample_digest foreign_row none ≡ ok foreign_linked
unfolding foreign_linked
foreign_links = link_row_lem sample_digest foreign_row none foreign_text foreign_written (
    hex-ne-genesis (sample_digest (genesis ++ foreign_text))
      (sample_digest-hex (genesis ++ foreign_text)))

foreign-verifies : verify_row_hash sample_digest foreign_linked ≡ ok true
foreign-verifies =
    (link_row-Attached sample_digest foreign_row none foreign_linked sample_digest-hex
      foreign_links).verifies

foreign-IsRun : (b : Bool) → IsRun sample_digest (if b then foreign_linked ∷ [] else [])
foreign-IsRun true = (foreign-verifies, unfold foreign_linked in refl, tt, tt)
foreign-IsRun false = tt

foreign-AreRuns : AreRuns sample_digest (foreign_linked ∷ [])
foreign-AreRuns run = foreign-IsRun (text_eq foreign_linked.content.run_id run)

foreign_unseen :
    link_row sample_digest
      (build_sample (read_head (text "r") (text "o") (foreign_linked ∷ [])))
      (map_option (λ h. h.row_hash) (read_head (text "r") (text "o") (foreign_linked ∷ [])))
    ≡ ok sample_linked
unfolding build_sample read_head foreign_linked text_eq
foreign_unseen = sample_links

foreign_last :
    sample_linked.prev_hash
    ≢ head_hash (last_hash (rows_of sample_linked.content.run_id (foreign_linked ∷ [])))
unfolding sample_linked foreign_linked text_eq
foreign_last e =
    hex-ne-genesis (sample_digest (genesis ++ foreign_text))
      (sample_digest-hex (genesis ++ foreign_text)) (sym e)

append-blind_example :
    append sample_digest admit_all undisturbed
      (text "r")
      (text "o")
      build_sample
      (foreign_linked ∷ [])
    ≡ (write_failed, foreign_linked ∷ [])
append-blind_example =
    append-blind sample_digest admit_all (text "r") (text "o") build_sample (foreign_linked ∷ [])
      sample_linked foreign-AreRuns foreign_unseen foreign_last

micro_from_numeric_text-format_aud_example :
    micro_from_numeric_text (format_aud (negsuc 1_234_567)) ≡ ok (negsuc 1_234_567)
micro_from_numeric_text-format_aud_example = micro_from_numeric_text-format_aud (negsuc 1_234_567)

micro_from_numeric_text_reads : micro_from_numeric_text (text " -12.5 ") ≡ ok (negsuc 12_499_999)
unfolding micro_from_numeric_text value is_space
micro_from_numeric_text_reads = refl
