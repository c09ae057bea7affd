-- ===== src/Main/Loop/Posts.antt =====
-- How often a message is posted.
use minichatclient.Base.{ℕ, ◌+◌, ◌≤◌, ◌≡◌, ◌⊎◌, none, some, arith, Bytes, List, [], ◌∷◌}
use minichatclient.Main.Loop.{Loop, Response, no_code, code, answered, posted}

-- The message is done with, or one more try is counted, and there are two at most.
abbrev pub Tried : Loop → Loop → Type 0
Tried l after =
    (after.outgoingmsg ≡ none)
    ⊎ ((after.outgoingmsg ≡ l.outgoingmsg)
        × (after.outgoingmsgretry ≡ l.outgoingmsgretry + 1)
        × (after.outgoingmsgretry ≤ 2))

answered-Tried :
    (wait_time_awake : ℕ) (buf : Bytes) (response : Response) (l : Loop)
    → Tried l (answered wait_time_awake buf response l).0
unfolding answered
answered-Tried awake buf no_code l = ground arith
answered-Tried awake buf (code n) l = ground arith

posted-Tried :
    (wait_time_awake : ℕ) (a : Bytes × Response) (l : Loop)
    → Tried l (posted wait_time_awake (some a) l).0
unfolding posted
posted-Tried awake (buf, response) l = ground (arith, answered-Tried awake buf response l)

-- The answers to one message, one after the other, whatever states lie between them.
unfoldable pub post_answers : ℕ → List (Bytes × Response) → Loop → Loop
post_answers wait_time_awake [] l = l
post_answers wait_time_awake (a ∷ answers) l =
    post_answers wait_time_awake answers (posted wait_time_awake (some a) l).0

-- A message gets three answers at most: whatever the server answers to three posts, no message is
-- left to be sent after them.
pub post_answers-end :
    (wait_time_awake : ℕ) (a b c : Bytes × Response) (l : Loop)
    → (post_answers wait_time_awake (a ∷ b ∷ c ∷ []) l).outgoingmsg ≡ none
unfolding post_answers
post_answers-end awake a b c l =
    let l1 = (posted awake (some a) l).0 in
    let l2 = (posted awake (some b) l1).0 in
    ground (arith, posted-Tried awake a l, posted-Tried awake b l1, posted-Tried awake c l2)
