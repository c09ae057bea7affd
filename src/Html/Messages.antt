-- ===== src/Html/Messages.antt =====
-- parsehtml.c: a page of messages gives these messages.
use minichatclient.Base.{
  ℕ, ◌+◌, ◌≡◌, ◌≢◌, refl, ◌∙◌, ◌==◌, Bool-cases, inl, inr, true, List, [], ◌∷◌, ◌++◌, map, some,
  Bytes, length, arith, All,
}
use minichatclient.Html.{Parser, Env, ready, says}
use minichatclient.Html.Page.{parse_loop, receive, sync, reset, number}
use minichatclient.Html.Pieces.{concat, receive-concat, counted, parse_minichat_mess-counted}
use minichatclient.Html.Reads.{Runs-append}
use minichatclient.Html.Safety.{IsShrinking, GivesText}
use minichatclient.Html.Safety.Runs.{number-injective}
use minichatclient.Html.Blocks.{Block, IsBlock, IsIdle, block, message_in, behind}
use minichatclient.Html.Blocks.Runs.{block_run, behind-IsIdle}

-- The parser behind the blocks.
abbrev behind_all : Env → Parser → List Block → Parser
behind_all env p [] = p
behind_all env p (b ∷ bs) = behind_all env (behind env p b) bs

abbrev pub page : List Block → Bytes
page bs = concat (map block bs)

blocks_run :
    (env : Env) (p : Parser) (bs : List Block)
    → IsShrinking env
    → All (λ b. GivesText env b.text) bs
    → IsIdle p
    → All IsBlock bs
    → (parse_loop env p (page bs)
        ≡ some (behind_all env p bs, map (λ b. says (message_in env b)) bs))
      × IsIdle (behind_all env p bs)
      × ((behind_all env p bs).nbmessages ≡ p.nbmessages + length bs)
unfolding parse_loop
blocks_run env p [] shrinks gives idle v = (refl, idle, omega arith)
blocks_run env p (b ∷ bs) shrinks gives idle v =
    let (run, after, count) =
      blocks_run env (behind env p b) bs shrinks gives.1
        (behind-IsIdle env p b shrinks gives.0 idle v.0) v.1 in
    (
      Runs-append env p (behind env p b) (behind_all env (behind env p b) bs) (block b) (page bs)
          (says (message_in env b) ∷ []) (map (λ b. says (message_in env b)) bs)
          (block_run env p b shrinks gives.0 idle v.0) run,
      after,
      omega (arith, count),
    )

reset-IsIdle : (p : Parser) → p.m ≡ 0 → p.n ≡ 0 → length p.msgid ≡ 30 → IsIdle (reset p)
unfolding sync number
reset-IsIdle p m n size = (
  elim (Bool-cases (number ready == number p.oldstate)) [
    | inl e ↦
        let same : p.oldstate ≡ ready = number-injective p.oldstate ready (ground arith) in
        rw (e, same, m, n)
    | inr e ↦ rw (e, m, n)
  ],
  size,
  omega arith,
)

-- A page that is made of the blocks of messages, each with other text before it in which no part
-- of a page begins, gives these messages, in order: the name, the addresses and the text decoded,
-- the text by way of the rules where there are some. Nothing else is called, the number that is
-- returned is that of the messages, and this holds however the network cuts the page into pieces.
-- The counters of the two hidden values are at zero when the page begins, an id has 20 bytes at
-- most, a text fits the buffer of 2000 bytes, decoding makes no text longer, and the rules
-- make some text of each message's text.
pub receive-page :
    (env : Env) (n : ℕ) (piece : Bytes) (pieces : List Bytes) (p : Parser) (b : Block)
    (bs : List Block)
    → IsShrinking env
    → All (λ b. GivesText env b.text) (b ∷ bs)
    → p.m ≡ 0
    → p.n ≡ 0
    → length p.msgid ≡ 30
    → All IsBlock (b ∷ bs)
    → piece ≢ []
    → All (λ s. s ≢ []) pieces
    → piece ++ concat pieces ≡ page (b ∷ bs)
    → (q : Parser) × (receive env true n (piece ∷ pieces) p
        ≡ some (length (b ∷ bs), q, map (λ b. says (message_in env b)) (b ∷ bs)))
unfolding counted
receive-page env n [] pieces p b bs shrinks gives m_zero n_zero size v ne nes e = absurd (ne refl)
receive-page env n (c ∷ s) pieces p b bs shrinks gives m_zero n_zero size v ne nes e =
    let (run, _, count) =
      blocks_run env (reset p) (b ∷ bs) shrinks gives (reset-IsIdle p m_zero n_zero size) v in
    let whole = receive-concat env n (c ∷ s) pieces p ne nes in
    (
      behind_all env (reset p) (b ∷ bs),
      whole
          ∙ parse_minichat_mess-counted env true (c ∷ (s ++ concat pieces)) p (λ f. cc)
          ∙ rw (e, run) (ground (arith, count)),
    )
