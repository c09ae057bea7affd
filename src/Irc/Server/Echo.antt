-- ===== src/Irc/Server/Echo.antt =====
-- `irc_message`: a message of the chat, and the client's own words when the chat repeats them.
use minichatclient.Base.{
  ℕ, ◌≡◌, inl, inr, Bool, false, [], ◌∷◌, Option, none, some, arith, Bytes, Option-cases,
  if◌then◌else◌, str_case_eq,
}
use minichatclient.Text.Replace.{strrep}
use minichatclient.Text.Replace.Single.{replaced, strrep_text-replaced}
use minichatclient.Irc.Server.{
  Irc, is_in_channel, is_me, from_person, no_spaces, is_echo, irc_message,
}

-- The text without its spaces.
abbrev pub squeeze : Bytes → Bytes
squeeze = replaced b' ' []

no_spaces-squeeze : (s : Bytes) → (n : ℕ) × (no_spaces s ≡ some (n, squeeze s))
unfolding no_spaces strrep
no_spaces-squeeze s = strrep_text-replaced s b' ' []

-- The message is from the forum's user, and it is what the client said last, but for spaces and
-- letter case.
abbrev pub repeats : Irc → Bytes → Bytes → Bool
repeats irc nickname message =
    if is_me irc nickname
    then elim irc.last_thing_i_said [
      | none ↦ false
      | some said ↦ str_case_eq (squeeze message) (squeeze said)
    ]
    else false

is_echo-repeats :
    (irc : Irc) (nickname message : Bytes)
    → is_echo irc nickname message ≡ some (repeats irc nickname message)
unfolding is_echo
is_echo-repeats irc nickname message = elim (Option-cases irc.last_thing_i_said) [
  | inl e ↦ ground arith
  | inr (said, e) ↦
      let (n, m) = no_spaces-squeeze message in
      let (n', m') = no_spaces-squeeze said in ground arith
]

pub irc_message-once :
    (irc : Irc) (nickname : Bytes) (ident : Option Bytes) (message : Bytes)
    → irc_message nickname ident message irc
      ≡ some (
          if repeats irc nickname message then (record irc { last_thing_i_said = none }, []) else (
            irc,
            if is_in_channel irc.clientstate
                then from_person irc nickname ident 3 "PRIVMSG"
                    (irc.channel_name ∷ some message ∷ [])
                  ∷ []
                else [],
          ))
unfolding irc_message
irc_message-once irc nickname ident message = ground (arith, is_echo-repeats irc nickname message)
