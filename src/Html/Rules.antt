-- ===== src/Html/Rules.antt =====
-- parsehtml.c with parser.c: the texts of a page under the rules that are loaded.
use minichatclient.Base.{
  ℕ, ◌≡◌, ◌≢◌, ◌≤◌, refl, ap, ◌∙◌, true, List, [], ◌∷◌, ◌++◌, map, Option, none, some, Bytes,
  length, arith, All, All-map,
}
use minichatclient.Main.Message.{Message}
use minichatclient.Html.{Parser, Env, says}
use minichatclient.Html.Page.{receive}
use minichatclient.Html.Pieces.{concat}
use minichatclient.Html.Safety.{GivesText}
use minichatclient.Html.Safety.Texts.{rewritten}
use minichatclient.Html.Blocks.{Block, IsBlock, message_in}
use minichatclient.Html.Messages.{page, receive-page}
use minichatclient.Markup.{Result, ok}
use minichatclient.Markup.Output.{Line, parse_html_in_message}
use minichatclient.Markup.Plain.{parse_html_in_message-plain}

abbrev shown_of : Result Bytes → Option Bytes
shown_of (ok shown) = some shown
shown_of _ = none

-- `parse_html_in_message(buffer, config)`, with the configuration of these lines; `none` is
-- undefined behaviour.
unfoldable pub rules_of : List Line → Bytes → Option Bytes
rules_of lines text = shown_of (parse_html_in_message lines text)

-- The decoder of entities with these rules.
abbrev pub with_rules : (Bytes → Bytes) → List Line → Env
with_rules decode lines = record { decode = decode; config = some (rules_of lines) }

abbrev pub without_rules : (Bytes → Bytes) → Env
without_rules decode = record { decode = decode; config = none }

rules_of-plain : (lines : List Line) (s : Bytes) → All (λ c. c ≢ b'<') s → rules_of lines s ≡ some s
unfolding rules_of
rules_of-plain lines s h = ap shown_of (parse_html_in_message-plain lines s h)

plain-GivesText :
    (decode : Bytes → Bytes) (lines : List Line) (s : Bytes)
    → All (λ c. c ≢ b'<') s
    → GivesText (with_rules decode lines) s
plain-GivesText decode lines s h rules e = ground (arith, rules_of-plain lines s h, e)

abbrev message_with : (Bytes → Bytes) → Block → Bytes → Message
message_with decode b text = record {
  username = decode b.name;
  message = text;
  usericonurl = some (decode b.icon);
  userprofileurl = some (decode (b'.' ∷ b.profile));
  msgid = b.id;
}

message_in-plain :
    (decode : Bytes → Bytes) (lines : List Line) (b : Block)
    → All (λ c. c ≢ b'<') b.text
    → message_in (with_rules decode lines) b ≡ message_in (without_rules decode) b
unfolding message_in rewritten
message_in-plain decode lines b h =
    let same : rewritten (with_rules decode lines) b.text ≡ decode b.text =
      ground (arith, rules_of-plain lines b.text h) in
    ap (λ (text : Bytes). message_with decode b text) same

messages_in-plain :
    (decode : Bytes → Bytes) (lines : List Line) (bs : List Block)
    → All (λ b. All (λ c. c ≢ b'<') b.text) bs
    → map (λ b. says (message_in (with_rules decode lines) b)) bs
      ≡ map (λ b. says (message_in (without_rules decode) b)) bs
messages_in-plain decode lines [] h = refl
messages_in-plain decode lines (b ∷ bs) h =
    rw (message_in-plain decode lines b h.0, messages_in-plain decode lines bs h.1) refl

-- A page of messages without markup gives, under any rules, the messages that it gives without
-- rules, and their number, however the network cuts it. The page is as in `receive-page`.
pub receive-plain_page :
    (decode : Bytes → Bytes) (lines : List Line) (n : ℕ) (piece : Bytes) (pieces : List Bytes)
    (p : Parser) (b : Block) (bs : List Block)
    → ((s : Bytes) → length (decode s) ≤ length s)
    → All (λ b. All (λ c. c ≢ b'<') b.text) (b ∷ bs)
    → p.m ≡ 0
    → p.n ≡ 0
    → length p.msgid ≡ 30
    → All IsBlock (b ∷ bs)
    → piece ≢ []
    → All (λ s. s ≢ []) pieces
    → piece ++ concat pieces ≡ page (b ∷ bs)
    → (q : Parser) × (receive (with_rules decode lines) true n (piece ∷ pieces) p
        ≡ some (length (b ∷ bs), q, map (λ b. says (message_in (without_rules decode) b)) (b ∷ bs)))
receive-plain_page decode lines n piece pieces p b bs shrinks plain m_zero n_zero size blocks
      some_piece some_pieces cut =
    let gives =
      All-map (λ (b : Block). All (λ c. c ≢ b'<') b.text)
        (λ (b : Block). GivesText (with_rules decode lines) b.text) (b ∷ bs)
        (λ b h. plain-GivesText decode lines b.text h) plain in
    let (q, run) =
      receive-page (with_rules decode lines) n piece pieces p b bs shrinks gives m_zero n_zero size
        blocks some_piece some_pieces cut in
    (q, run ∙ rw (messages_in-plain decode lines (b ∷ bs) plain) refl)
