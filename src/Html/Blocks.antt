-- ===== src/Html/Blocks.antt =====
-- parsehtml.c: the block of a message in a page, and what the parser makes of it.
pub mod Runs
use minichatclient.Base.{
  ℕ, ◌+◌, ◌-◌, ◌<◌, ◌≤◌, ◌≡◌, ◌≢◌, refl, sym, ◌∙◌, true, [], ◌∷◌, ◌++◌, some, Bytes, length,
  length-append, length-take_le, take-append, take, set, codes, arith, All, c_string-all, All-map,
  write-set, length-set,
}
use minichatclient.Main.Message.{Message}
use minichatclient.Html.{
  State, Parser, Env, ready, in_msg_id, in_message, looking_for_username, in_username,
  in_usericon_url, looking_for_usericon_url, looking_for_profile_url, in_profile_url,
  looking_for_message, watchfor, watchfor2, string_at, says,
}
use minichatclient.Html.Steps.{
  set_icon, set_profile, set_username, mess_tag, message_tag, step_msg_id, step_ready,
}
use minichatclient.Html.Page.{round, parse_loop, sync, switch, number}
use minichatclient.Html.Pieces.{parse_loop-append}
use minichatclient.Html.Reads.{
  Runs-append, parse_loop-sync, sync_same, round_in, IsText, until_run, sought, seek_run, name_run,
  stored, id_run,
}
use minichatclient.Html.Safety.{IsModest}
use minichatclient.Html.Safety.Texts.{rewritten, ended}
use minichatclient.Html.Idle.{passed, passes, passed_run}
use minichatclient.Html.Bodies.{take-stored, id_stored, body_ends, body_run}

-- A state that is entered with the counters reset.
abbrev pub entered : State → Parser → Parser
entered s p = record p { state = s; oldstate = s; j = 0; l = 0 }

pub first_run :
    (env : Env) (p q : Parser) (w : Bytes)
    → sync p ≡ sync q
    → w ≢ []
    → parse_loop env p w ≡ parse_loop env q w
first_run env p q [] e ne = absurd (ne refl)
first_run env p q (c ∷ w) e ne = parse_loop-sync env p q c w e

pub begin_run :
    (env : Env) (s : State) (p : Parser) (w : Bytes)
    → sync p ≡ entered s p
    → w ≢ []
    → parse_loop env p w ≡ parse_loop env (entered s p) w
begin_run env s p w e =
    first_run env p (entered s p) w (e ∙ sym (sync_same (entered s p) s refl refl))

pub not_empty : (w : Bytes) (c : ℕ) → w ++ c ∷ [] ≢ []
not_empty [] c e = cc
not_empty (x ∷ w) c e = cc

-- What stands in the block of a message.
pub record Block : Type 0 where
  -- up to, without, `<div id="mess`
  pub before : Bytes
  pub id : Bytes
  -- up to the end of `<img src="`
  pub before_icon : Bytes
  pub icon : Bytes
  -- up to the end of `<a href=".`
  pub before_profile : Bytes
  pub profile : Bytes
  -- up to the end of the tag
  pub before_name : Bytes
  pub name : Bytes
  -- up to the end of `<div class="avatarMessage mChatMessage">`
  pub before_text : Bytes
  pub text : Bytes

-- The block as it stands in a page.
abbrev pub block : Block → Bytes
block b =
    (b.before ++ mess_tag)
    ++ ((b.id ++ b'"' ∷ [])
        ++ (b.before_icon
            ++ ((b.icon ++ b'"' ∷ [])
                ++ (b.before_profile
                    ++ ((b.profile ++ b'"' ∷ [])
                        ++ ((b.before_name ++ b'>' ∷ [])
                            ++ ((b.name ++ b'<' ∷ [])
                                ++ (b.before_text ++ (b.text ++ codes "</div>")))))))))

pub record IsBlock (b : Block) : Type 0 where
  pub passed_over : passed (0, 0, 0, 0) b.before ≡ some (0, 0, 0, 0)
  pub id_text : All (IsText b'"') b.id
  pub id_fits : length b.id ≤ 20
  pub icon_sought : sought (codes "<img src=\"") 0 b.before_icon ≡ true
  pub icon_text : All (IsText b'"') b.icon
  pub icon_fits : length b.icon < 2000
  pub profile_sought : sought (codes "<a href=\".") 0 b.before_profile ≡ true
  pub profile_text : All (IsText b'"') b.profile
  pub profile_fits : length b.profile + 1 < 2000
  pub tag_goes_on : All (λ c. c ≢ b'>') b.before_name
  pub name_text : All (IsText b'<') b.name
  pub name_fits : length b.name < 2000
  pub text_sought : sought message_tag 0 b.before_text ≡ true
  pub text_ends : body_ends 0 0 (b.text ++ codes "</div>") ≡ true
  pub text_zeros : All (λ c. c ≢ 0) b.text
  pub text_fits : length b.text + 6 < 2000

-- The parser behind each part of a block.
module _ (env : Env) (p : Parser) (b : Block) where
  abbrev pub at_id : Parser
  at_id = record (entered ready p) { m = 0; n = 0; out = []; state = in_msg_id }

  abbrev pub at_icon_tag : Parser
  at_icon_tag = record (entered in_msg_id at_id) {
    msgid = set (stored p.msgid 0 b.id) (length b.id) 0;
    j = length b.id;
    state = looking_for_usericon_url;
  }

  abbrev pub at_icon : Parser
  at_icon = record (entered looking_for_usericon_url at_icon_tag) {
    out = [];
    state = in_usericon_url;
  }

  abbrev pub at_profile_tag : Parser
  at_profile_tag =
      set_icon (env.decode b.icon) (record (entered in_usericon_url at_icon) { out = b.icon })

  abbrev pub at_profile : Parser
  at_profile = record (entered looking_for_profile_url at_profile_tag) {
    out = codes ".";
    state = in_profile_url;
  }

  abbrev pub at_name_tag : Parser
  at_name_tag =
      set_profile (env.decode (b'.' ∷ b.profile))
        (record (entered in_profile_url at_profile) { out = b'.' ∷ b.profile })

  abbrev pub at_name : Parser
  at_name = record (entered looking_for_username at_name_tag) { out = []; state = in_username }

  abbrev pub at_text_tag : Parser
  at_text_tag =
      set_username (env.decode b.name) (record (entered in_username at_name) { out = b.name })

  abbrev pub at_text : Parser
  at_text = record (entered looking_for_message at_text_tag) { out = []; state = in_message }

  abbrev pub behind : Parser
  behind = ended env (record (entered in_message at_text) { out = b.text ++ codes "</div>" })

-- The message of a block.
unfoldable pub message_in : Env → Block → Message
unfolding rewritten
message_in env b = record {
  username = env.decode b.name;
  message = rewritten env b.text;
  usericonurl = some (env.decode b.icon);
  userprofileurl = some (env.decode (b'.' ∷ b.profile));
  msgid = b.id;
}

-- A parser that is between two blocks.
abbrev pub at_tag : Parser → Parser
at_tag p = record (entered ready p) { m = 0; n = 0 }

abbrev pub IsIdle : Parser → Type 0
IsIdle p = (sync p ≡ at_tag p) × (length p.msgid ≡ 30) × (length p.out < 2000)
