-- ===== src/Gateway/Message.antt =====
-- The user message (`renderUserMessage` in src/agents/gateway.ts).
use ledgerdesk.Prelude.{◌≡◌, refl, List, [], ◌∷◌, Text, text_lt}
use ledgerdesk.Prelude.Checked.{ok}
use ledgerdesk.Canonical.Normal.{sorted, sorted_items, insert_member}
use ledgerdesk.Canonical.Parts.{IsLegible, AreLegible}
use ledgerdesk.Canonical.RoundTrip.{canonical_json_iff}
use ledgerdesk.Gateway.Types.{KbExcerpt}
use ledgerdesk.Gateway.Rows.{excerpt_items, excerpt_json, message_json, render_user_message}

excerpts-AreLegible : (kb : List KbExcerpt) → AreLegible (excerpt_items excerpt_json kb)
unfolding IsLegible
excerpts-AreLegible [] = tt
excerpts-AreLegible (entry ∷ kb) = ((tt, (tt, tt)), excerpts-AreLegible kb)

message-IsLegible : (body : Text) (kb : List KbExcerpt) → IsLegible (message_json body kb)
unfolding IsLegible
message-IsLegible body kb = (tt, (excerpts-AreLegible kb, tt))

excerpt_eq : (x y : KbExcerpt) → x.kb_id ≡ y.kb_id → x.excerpt ≡ y.excerpt → x ≡ y
excerpt_eq x y e f = cc

sources_injective :
    (x y : List KbExcerpt)
    → sorted_items (excerpt_items excerpt_json x) ≡ sorted_items (excerpt_items excerpt_json y)
    → x ≡ y
unfolding sorted insert_member text_lt
sources_injective [] [] e = refl
sources_injective [] (b ∷ y) e = cc
sources_injective (a ∷ x) [] e = cc
sources_injective (a ∷ x) (b ∷ y) e =
    let ids : a.kb_id ≡ b.kb_id = cc in
    let texts : a.excerpt ≡ b.excerpt = cc in
    let rest : sorted_items (excerpt_items excerpt_json x)
        ≡ sorted_items (excerpt_items excerpt_json y) =
      cc in
    let first = excerpt_eq a b ids texts in let tail = sources_injective x y rest in cc

message_injective :
    (body other : Text) (x y : List KbExcerpt)
    → sorted (message_json body x) ≡ sorted (message_json other y)
    → (body ≡ other) × (x ≡ y)
unfolding sorted insert_member text_lt
message_injective body other x y e =
    let bodies : body ≡ other = cc in
    let sources : sorted_items (excerpt_items excerpt_json x)
        ≡ sorted_items (excerpt_items excerpt_json y) =
      cc in
    (bodies, sources_injective x y sources)

-- Two messages that read the same have the same enquiry and the same sources, in their order: no
-- text of an enquiry or of an excerpt can pass for another source.
pub render_user_message_injective :
    (body other : Text) (x y : List KbExcerpt) (t : Text)
    → render_user_message body x ≡ ok t
    → render_user_message other y ≡ ok t
    → (body ≡ other) × (x ≡ y)
unfolding render_user_message
render_user_message_injective body other x y t e f = message_injective body other x y (
    (canonical_json_iff (message_json body x) (message_json other y) t (message-IsLegible body x)
        (message-IsLegible other y) e).0
      f)
