-- ===== src/Html/Blocks/Runs.antt =====
-- parsehtml.c: the run of the parser over the block of a message, part by part.
use mathlib.Core.Path.{subst, ap}
use minichatclient.Base.{
  ℕ, ◌+◌, ◌-◌, ◌≡◌, ◌≢◌, refl, sym, ◌∙◌, true, [], ◌∷◌, ◌++◌, some, Bytes, length, length-append,
  length-take_le, take-append, take, codes, arith, c_string, c_string-all, All-map, write-set,
  length-set,
}
use minichatclient.Html.{
  Parser, Env, ready, in_msg_id, in_message, looking_for_username, in_username, in_usericon_url,
  looking_for_usericon_url, looking_for_profile_url, in_profile_url, looking_for_message, watchfor,
  watchfor2, string_at, says,
}
use minichatclient.Html.Steps.{
  set_icon, set_profile, set_username, mess_tag, message_tag, step_msg_id, step_ready,
}
use minichatclient.Html.Page.{round, parse_loop, sync, switch, number}
use minichatclient.Html.Pieces.{parse_loop-append}
use minichatclient.Html.Reads.{
  Runs-append, sync_same, round_in, IsText, until_run, sought, seek_run, name_run, stored, id_run,
}
use minichatclient.Html.Safety.{IsShrinking, GivesText}
use minichatclient.Html.Safety.Texts.{rewritten}
use minichatclient.Html.Idle.{passed, passes, passed_run}
use minichatclient.Html.Bodies.{take-stored, id_stored, body_run}
use minichatclient.Html.Blocks.{
  Block, IsBlock, IsIdle, block, message_in, behind, at_tag, entered, begin_run, first_run,
  not_empty, at_id, at_icon_tag, at_icon, at_profile_tag, at_profile, at_name_tag, at_name,
  at_text_tag, at_text,
}

sought-not_empty : (string : Bytes) (k : ℕ) (w : Bytes) → sought string k w ≡ true → w ≢ []
unfolding sought
sought-not_empty string k [] h e = cc
sought-not_empty string k (c ∷ w) h e = cc

not_empty' : (w t : Bytes) → t ≢ [] → w ++ t ≢ []
not_empty' [] t ne e = ne e
not_empty' (x ∷ w) t ne e = cc

take_before : (s t : Bytes) → take (length (s ++ t) - length t) (s ++ t) ≡ s
take_before s t =
    let n : length (s ++ t) - length t ≡ length s = omega (arith, length-append s t) in
    rw n (take-append s t)

module _ (env : Env) (p : Parser) (b : Block) (shrinks : IsShrinking env)
    (gives : GivesText env b.text) (idle : IsIdle p) (v : IsBlock b) where
  id_part : parse_loop env p (b.before ++ mess_tag) ≡ some (at_id env p b, [])
  unfolding sync number switch step_ready parse_loop passed passes watchfor watchfor2 string_at
  id_part =
      let q : Parser = record (at_tag p) { j = 12 } in
      let tag : parse_loop env (at_tag p) mess_tag ≡ some (at_id env p b, []) =
        Runs-append env (at_tag p) q (at_id env p b) (codes "<div id=\"mes") (codes "s") [] []
          (passed_run env (at_tag p) (codes "<div id=\"mes") (12, 0, 0, 0) refl refl idle.2 refl)
          (rw (
            round_in env q (at_id env p b) ready b's' refl refl (λ x. omega arith)
              (λ x. omega arith) refl (omega arith))) in
      first_run env p (at_tag p) (b.before ++ mess_tag)
        (idle.0 ∙ sym (sync_same (at_tag p) ready refl refl))
        (not_empty' b.before mess_tag (λ e. cc))
      ∙ Runs-append env (at_tag p) (at_tag p) (at_id env p b) b.before mess_tag [] []
          (passed_run env (at_tag p) b.before (0, 0, 0, 0) refl refl idle.2 v.passed_over) tag

  icon_tag_part :
      parse_loop env (at_id env p b) (b.id ++ b'"' ∷ []) ≡ some (at_icon_tag env p b, [])
  unfolding sync number parse_loop switch step_msg_id
  icon_tag_part =
      let q = entered in_msg_id (at_id env p b) in
      let r : Parser = record q { msgid = stored p.msgid 0 b.id; j = 0 + length b.id } in
      let last : round env r b'"' ≡ some (at_icon_tag env p b, []) =
        round_in env r (at_icon_tag env p b) in_msg_id b'"' refl refl (λ x. omega arith)
          (λ x. omega arith)
          (ground (
            arith,
            v.id_fits,
            write-set (stored p.msgid 0 b.id) (0 + length b.id) 0,
            (take-stored p.msgid 0 b.id (omega (arith, v.id_fits, idle.1))).1,
            idle.1,
          ))
          (omega arith) in
      begin_run env in_msg_id (at_id env p b) (b.id ++ b'"' ∷ []) refl (not_empty b.id b'"')
      ∙ Runs-append env q r (at_icon_tag env p b) b.id (b'"' ∷ []) [] []
          (id_run env q b.id refl refl (omega arith) idle.1 v.id_text (omega (arith, v.id_fits)))
          (rw last)

  icon_part : parse_loop env (at_icon_tag env p b) b.before_icon ≡ some (at_icon env p b, [])
  unfolding sync number switch
  icon_part =
      begin_run env looking_for_usericon_url (at_icon_tag env p b) b.before_icon refl
        (sought-not_empty (codes "<img src=\"") 0 b.before_icon v.icon_sought)
      ∙ seek_run env looking_for_usericon_url in_usericon_url (codes "<img src=\"") []
          (entered looking_for_usericon_url (at_icon_tag env p b)) b.before_icon (λ q c. refl) refl
          refl (omega arith) (omega arith) v.icon_sought

  profile_tag_part :
      parse_loop env (at_icon env p b) (b.icon ++ b'"' ∷ []) ≡ some (at_profile_tag env p b, [])
  unfolding sync number switch
  profile_tag_part =
      let q = entered in_usericon_url (at_icon env p b) in
      begin_run env in_usericon_url (at_icon env p b) (b.icon ++ b'"' ∷ []) refl
        (not_empty b.icon b'"')
      ∙ until_run env in_usericon_url b'"' set_icon q b.icon (λ q c. refl) refl refl
          (λ x. omega arith, λ x. omega arith) v.icon_text tt (omega (arith, v.icon_fits))
          (shrinks (q.out ++ b.icon)) (λ text q. omega arith)

  profile_part :
      parse_loop env (at_profile_tag env p b) b.before_profile ≡ some (at_profile env p b, [])
  unfolding sync number switch
  profile_part =
      begin_run env looking_for_profile_url (at_profile_tag env p b) b.before_profile refl
        (sought-not_empty (codes "<a href=\".") 0 b.before_profile v.profile_sought)
      ∙ seek_run env looking_for_profile_url in_profile_url (codes "<a href=\".") (codes ".")
          (entered looking_for_profile_url (at_profile_tag env p b)) b.before_profile (λ q c. refl)
          refl refl v.icon_fits (omega arith) v.profile_sought

  name_tag_part :
      parse_loop env (at_profile env p b) (b.profile ++ b'"' ∷ []) ≡ some (at_name_tag env p b, [])
  unfolding sync number switch
  name_tag_part =
      let q = entered in_profile_url (at_profile env p b) in
      begin_run env in_profile_url (at_profile env p b) (b.profile ++ b'"' ∷ []) refl
        (not_empty b.profile b'"')
      ∙ until_run env in_profile_url b'"' set_profile q b.profile (λ q c. refl) refl refl
          (λ x. omega arith, λ x. omega arith) v.profile_text (λ x. omega arith, tt)
          (omega (arith, v.profile_fits)) (shrinks (q.out ++ b.profile)) (λ text q. omega arith)

  name_part :
      parse_loop env (at_name_tag env p b) (b.before_name ++ b'>' ∷ []) ≡ some (at_name env p b, [])
  unfolding sync number switch
  name_part =
      begin_run env looking_for_username (at_name_tag env p b) (b.before_name ++ b'>' ∷ []) refl
        (not_empty b.before_name b'>')
      ∙ name_run env (entered looking_for_username (at_name_tag env p b)) b.before_name refl refl
          (omega (arith, v.profile_fits)) v.tag_goes_on

  text_tag_part :
      parse_loop env (at_name env p b) (b.name ++ b'<' ∷ []) ≡ some (at_text_tag env p b, [])
  unfolding sync number switch
  text_tag_part =
      let q = entered in_username (at_name env p b) in
      begin_run env in_username (at_name env p b) (b.name ++ b'<' ∷ []) refl (not_empty b.name b'<')
      ∙ until_run env in_username b'<' set_username q b.name (λ q c. refl) refl refl
          (λ x. omega arith, λ x. omega arith) v.name_text tt (omega (arith, v.name_fits))
          (shrinks (q.out ++ b.name)) (λ text q. omega arith)

  text_part : parse_loop env (at_text_tag env p b) b.before_text ≡ some (at_text env p b, [])
  unfolding sync number switch
  text_part =
      begin_run env looking_for_message (at_text_tag env p b) b.before_text refl
        (sought-not_empty message_tag 0 b.before_text v.text_sought)
      ∙ seek_run env looking_for_message in_message message_tag []
          (entered looking_for_message (at_text_tag env p b)) b.before_text (λ q c. refl) refl refl
          v.name_fits (omega arith) v.text_sought

  end_part :
      parse_loop env (at_text env p b) (b.text ++ codes "</div>")
      ≡ some (behind env p b, says (message_in env b) ∷ [])
  unfolding sync number message_in rewritten
  end_part =
      let q = entered in_message (at_text env p b) in
      begin_run env in_message (at_text env p b) (b.text ++ codes "</div>") refl
        (not_empty' b.text (codes "</div>") (λ e. cc))
      ∙ body_run env q (b.text ++ codes "</div>") (env.decode b.name) shrinks
          (subst (GivesText env)
            (sym (
              ap c_string (take_before b.text (codes "</div>")) ∙ c_string-all b.text v.text_zeros))
            gives)
          refl refl refl (omega arith)
          (omega (arith, v.text_fits, length-append b.text (codes "</div>"))) v.text_ends
      ∙ rw (
        take_before b.text (codes "</div>"),
        c_string-all b.text v.text_zeros,
        id_stored p.msgid b.id idle.1 v.id_fits
            (All-map (IsText b'"') (λ c. c ≢ 0) b.id (λ c h. h.3) v.id_text),
      )

  -- A block is parsed as its message, and the parser is idle again.
  pub block_run : parse_loop env p (block b) ≡ some (behind env p b, says (message_in env b) ∷ [])
  block_run = rw (
    parse_loop-append env p (b.before ++ mess_tag) _,
    id_part,
    parse_loop-append env (at_id env p b) (b.id ++ b'"' ∷ []) _,
    icon_tag_part,
    parse_loop-append env (at_icon_tag env p b) b.before_icon _,
    icon_part,
    parse_loop-append env (at_icon env p b) (b.icon ++ b'"' ∷ []) _,
    profile_tag_part,
    parse_loop-append env (at_profile_tag env p b) b.before_profile _,
    profile_part,
    parse_loop-append env (at_profile env p b) (b.profile ++ b'"' ∷ []) _,
    name_tag_part,
    parse_loop-append env (at_name_tag env p b) (b.before_name ++ b'>' ∷ []) _,
    name_part,
    parse_loop-append env (at_name env p b) (b.name ++ b'<' ∷ []) _,
    text_tag_part,
    parse_loop-append env (at_text_tag env p b) b.before_text _,
    text_part,
    end_part,
  )

  pub behind-IsIdle : IsIdle (behind env p b)
  unfolding sync number
  behind-IsIdle = (
    refl,
    length-set (stored p.msgid 0 b.id) (length b.id) 0
        ∙ (take-stored p.msgid 0 b.id (omega (arith, v.id_fits, idle.1))).1
        ∙ idle.1,
    omega (
      arith,
      v.text_fits,
      length-append b.text (codes "</div>"),
      length-take_le (length (b.text ++ codes "</div>") - 6) (b.text ++ codes "</div>"),
    ),
  )
