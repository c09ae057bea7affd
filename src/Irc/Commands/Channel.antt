-- ===== src/Irc/Commands/Channel.antt =====
-- A client's lines to the channel, from the bytes that it sends to what becomes of them.
use minichatclient.Base.{
  ℕ, ◌≡◌, refl, true, false, [], ◌∷◌, ◌++◌, map, Option, some, arith, Bytes, ◌>>=◌, codes, length,
  set, str_eq, str_case_eq, length-append,
}
use minichatclient.Text.Search.{starts_with}
use minichatclient.Irc.Split.{capital}
use minichatclient.Irc.Split.Laws.{IsWord, spaced, split-spaced}
use minichatclient.Irc.Server.{Irc, Handled, identified, in_channel, from_client}
use minichatclient.Irc.Handlers.{
  Env, action_text, said_text, on_privmsg, on_join, on_part, channel_lines,
}
use minichatclient.Irc.Commands.{registered_command, run_command, parse_buffer}

-- The end of an action's text becomes a star.
set-last : (w : Bytes) (c d : ℕ) → set (w ++ c ∷ []) (length w) d ≡ w ++ d ∷ []
set-last [] c d = refl
set-last (x ∷ w) c d = ground (arith, set-last w c d)

said_text-action :
    (w : Bytes) (c : ℕ)
    → said_text (1 ∷ codes "ACTION" ++ c ∷ w ++ 1 ∷ []) ≡ some (b'*' ∷ w ++ b'*' ∷ [])
unfolding said_text action_text starts_with
said_text-action w c = ground (arith, set-last w 1 b'*', length-append w (1 ∷ []))

-- The two commands in a row: the state at the end, and all that is sent.
unfoldable pub join_then_part : Env → Irc → Bytes → Option Handled
join_then_part env irc target = do
  j ← run_command env irc (codes "JOIN" ∷ target ∷ [])
  p ← run_command env j.after (codes "PART" ∷ target ∷ [])
  some (p.after, j.outputs ++ p.outputs)

module _ (env : Env) (irc : Irc) (channel target : Bytes) (named : irc.channel_name ≡ some channel)
    (same : str_case_eq target channel ≡ true) where
  run_command-privmsg :
      (text said : Bytes)
      → irc.clientstate ≡ in_channel
      → said_text text ≡ some said
      → run_command env irc (codes "PRIVMSG" ∷ target ∷ text ∷ [])
        ≡ some (record { returned = some said; after = irc; outputs = [] })
  unfolding run_command registered_command on_privmsg str_eq
  run_command-privmsg text said inside says = ground arith

  -- In the channel, PRIVMSG in letters of either case, the channel's name, in letters of either
  -- case too, and a text behind a colon that does not begin with the CTCP mark: the server returns
  -- that text, spaces and all, for the chat.
  pub privmsg-says :
      (command text : Bytes)
      → IsWord command
      → map capital command ≡ codes "PRIVMSG"
      → IsWord target
      → irc.clientstate ≡ in_channel
      → starts_with (1 ∷ []) text ≡ false
      → parse_buffer env irc (command ++ spaced (target ∷ []) text)
        ≡ some (record { returned = some text; after = irc; outputs = [] })
  unfolding parse_buffer said_text
  privmsg-says command text k upper t inside plain =
      ground (arith, split-spaced command (target ∷ []) text, run_command-privmsg text text)

  -- An action in the channel, a text that begins with the CTCP mark and ACTION, one more byte, and
  -- ends in another mark, is returned for the chat with a star in the place of each mark.
  pub privmsg-acts :
      (command w : Bytes) (c : ℕ)
      → IsWord command
      → map capital command ≡ codes "PRIVMSG"
      → IsWord target
      → irc.clientstate ≡ in_channel
      → parse_buffer env irc
          (command ++ spaced (target ∷ []) (1 ∷ codes "ACTION" ++ c ∷ w ++ 1 ∷ []))
        ≡ some (record { returned = some (b'*' ∷ w ++ b'*' ∷ []); after = irc; outputs = [] })
  unfolding parse_buffer
  privmsg-acts command w c k upper t inside =
      let text = 1 ∷ codes "ACTION" ++ c ∷ w ++ 1 ∷ [] in
      ground (
        arith,
        split-spaced command (target ∷ []) text,
        run_command-privmsg text (b'*' ∷ w ++ b'*' ∷ []),
        said_text-action w c,
      )

  -- JOIN and PART of the channel, by a client that is identified, leave the state as it was, and
  -- the client gets the lines of the channel and then its own PART.
  pub join-part :
      irc.clientstate ≡ identified
      → join_then_part env irc target
        ≡ some (irc, channel_lines env irc ++ from_client irc 2 "PART" (some channel ∷ []) ∷ [])
  unfolding join_then_part run_command registered_command on_join on_part str_eq
  join-part outside = ground arith
