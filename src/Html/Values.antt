-- ===== src/Html/Values.antt =====
-- parsehtml.c and cookies.c: the hidden values of the form, from the page to where the POST of a
-- message takes them.
use minichatclient.Base.{
  ◌<◌, ◌≡◌, ◌≢◌, refl, sym, ◌∙◌, List, [], ◌∷◌, ◌++◌, some, Bytes, length, codes, arith, All,
  All-map, c_string-all,
}
use minichatclient.Cookies.Tokens.{
  Tokens, set_creation_time, set_form_token, get_creation_time, get_form_token,
}
use minichatclient.Html.{
  Event, Parser, Env, ready, in_creation_time, in_form_token, creation_time, form_token, watchfor,
  watchfor2, string_at, close,
}
use minichatclient.Html.Steps.{step_ready, step_value, creation_time_tag, form_token_tag}
use minichatclient.Html.Page.{round, parse_loop, sync, switch, number}
use minichatclient.Html.Reads.{Runs-append, IsText, keep_run, round_in, round_with, sync_same}
use minichatclient.Html.Idle.{passed, passes, passed_run}
use minichatclient.Html.Blocks.{IsIdle, at_tag, begin_run, first_run, entered, not_empty}

-- What the calls of a page leave in cookies.c.
unfoldable pub stored_tokens : List Event → Tokens → Tokens
unfolding set_creation_time set_form_token
stored_tokens [] t = t
stored_tokens (creation_time text ∷ events) t = stored_tokens events (set_creation_time text t)
stored_tokens (form_token text ∷ events) t = stored_tokens events (set_form_token text t)
stored_tokens (_ ∷ events) t = stored_tokens events t

module _ (env : Env) (p : Parser) (v : Bytes) (idle : IsIdle p) (text : All (IsText b'"') v)
    (fits : length v < 2000) where
  time_tag :
      parse_loop env p creation_time_tag
      ≡ some (record (at_tag p) { out = []; state = in_creation_time }, [])
  unfolding sync number switch step_ready parse_loop passed passes watchfor watchfor2 string_at
  time_tag =
      let q : Parser = record (at_tag p) { m = 48 } in
      let r : Parser = record (at_tag p) { out = []; state = in_creation_time } in
      first_run env p (at_tag p) creation_time_tag
        (idle.0 ∙ sym (sync_same (at_tag p) ready refl refl)) (λ e. cc)
      ∙ Runs-append env (at_tag p) q r
          (codes "<input type=\"hidden\" name=\"creation_time\" value=") (codes "\"") [] []
          (passed_run env (at_tag p) (codes "<input type=\"hidden\" name=\"creation_time\" value=")
            (0, 0, 48, 0) refl refl idle.2 refl)
          (rw (
            round_in env q r ready b'"' refl refl (λ x. omega arith) (λ x. omega arith) refl
              (omega arith)))

  -- The creation time of a form is handed over as it stands in the page.
  time_run :
      (q : Parser) × (parse_loop env p (creation_time_tag ++ (v ++ b'"' ∷ []))
        ≡ some (q, creation_time v ∷ []))
      × IsIdle q
  unfolding sync number switch step_value close parse_loop
  time_run =
      let r : Parser = record (at_tag p) { out = []; state = in_creation_time } in
      let s = entered in_creation_time r in
      let kept : Parser = record s { out = v } in
      let q : Parser = record kept { state = ready } in
      let zeros = All-map (IsText b'"') (λ c. c ≢ 0) v (λ c h. h.3) text in
      let last : round env kept b'"' ≡ some (q, creation_time v ∷ []) =
        round_with env kept q in_creation_time b'"' (creation_time v ∷ []) refl refl
          (λ x. omega arith) (λ x. omega arith) (ground (arith, c_string-all v zeros)) fits in
      let value : parse_loop env r (v ++ b'"' ∷ []) ≡ some (q, creation_time v ∷ []) =
        begin_run env in_creation_time r (v ++ b'"' ∷ []) refl (not_empty v b'"')
        ∙ Runs-append env s kept q v (b'"' ∷ []) [] (creation_time v ∷ [])
            (keep_run env in_creation_time b'"' s v (λ q c ne. ground arith) refl refl text
              (omega arith))
            (rw last) in
      (
        q,
        Runs-append env p r q creation_time_tag (v ++ b'"' ∷ []) [] (creation_time v ∷ []) time_tag
            value,
        (refl, idle.1, fits),
      )

  token_tag :
      parse_loop env p form_token_tag
      ≡ some (record (at_tag p) { out = []; state = in_form_token }, [])
  unfolding sync number switch step_ready parse_loop passed passes watchfor watchfor2 string_at
  token_tag =
      let q : Parser = record (at_tag p) { n = 45 } in
      let r : Parser = record (at_tag p) { out = []; state = in_form_token } in
      first_run env p (at_tag p) form_token_tag
        (idle.0 ∙ sym (sync_same (at_tag p) ready refl refl)) (λ e. cc)
      ∙ Runs-append env (at_tag p) q r (codes "<input type=\"hidden\" name=\"form_token\" value=")
          (codes "\"") [] []
          (passed_run env (at_tag p) (codes "<input type=\"hidden\" name=\"form_token\" value=")
            (0, 0, 0, 45) refl refl idle.2 refl)
          (rw (
            round_in env q r ready b'"' refl refl (λ x. omega arith) (λ x. omega arith) refl
              (omega arith)))

  -- The token of a form is handed over as it stands in the page.
  token_run :
      (q : Parser) × (parse_loop env p (form_token_tag ++ (v ++ b'"' ∷ []))
        ≡ some (q, form_token v ∷ []))
      × IsIdle q
  unfolding sync number switch step_value close parse_loop
  token_run =
      let r : Parser = record (at_tag p) { out = []; state = in_form_token } in
      let s = entered in_form_token r in
      let kept : Parser = record s { out = v } in
      let q : Parser = record kept { state = ready } in
      let zeros = All-map (IsText b'"') (λ c. c ≢ 0) v (λ c h. h.3) text in
      let last : round env kept b'"' ≡ some (q, form_token v ∷ []) =
        round_with env kept q in_form_token b'"' (form_token v ∷ []) refl refl (λ x. omega arith)
          (λ x. omega arith) (ground (arith, c_string-all v zeros)) fits in
      let value : parse_loop env r (v ++ b'"' ∷ []) ≡ some (q, form_token v ∷ []) =
        begin_run env in_form_token r (v ++ b'"' ∷ []) refl (not_empty v b'"')
        ∙ Runs-append env s kept q v (b'"' ∷ []) [] (form_token v ∷ [])
            (keep_run env in_form_token b'"' s v (λ q c ne. ground arith) refl refl text
              (omega arith))
            (rw last) in
      (
        q,
        Runs-append env p r q form_token_tag (v ++ b'"' ∷ []) [] (form_token v ∷ []) token_tag
            value,
        (refl, idle.1, fits),
      )

-- Other text between the values is passed over.
gap_run :
    (env : Env) (p : Parser) (gap : Bytes)
    → IsIdle p
    → gap ≢ []
    → passed (0, 0, 0, 0) gap ≡ some (0, 0, 0, 0)
    → (parse_loop env p gap ≡ some (at_tag p, [])) × IsIdle (at_tag p)
gap_run env p gap idle ne h =
    let run_proof : parse_loop env p gap ≡ some (at_tag p, []) =
      first_run env p (at_tag p) gap (idle.0 ∙ sym (sync_same (at_tag p) ready refl refl)) ne
      ∙ passed_run env (at_tag p) gap (0, 0, 0, 0) refl refl idle.2 h in
    (run_proof, (sync_same (at_tag p) ready refl refl, idle.1, idle.2))

-- The parser is between two parts of a page: it waits for the next part, and its counters, those of
-- the two hidden values too, are at zero; its arrays have their sizes and room. Then the two hidden
-- values of a form, in this order, are what cookies.c gives afterwards, whatever it held before.
-- Each is below 2000 bytes and has no quote, line end or zero, and between the two there is some
-- text in which no part of a page begins.
pub hidden_values :
    (env : Env) (p : Parser) (time gap token : Bytes) (t : Tokens)
    → IsIdle p
    → All (IsText b'"') time
    → length time < 2000
    → gap ≢ []
    → passed (0, 0, 0, 0) gap ≡ some (0, 0, 0, 0)
    → All (IsText b'"') token
    → length token < 2000
    → (q : Parser) × (events : List Event) × (parse_loop env p (
          (creation_time_tag ++ (time ++ b'"' ∷ []))
          ++ (gap ++ (form_token_tag ++ (token ++ b'"' ∷ []))))
        ≡ some (q, events))
      × ((get_creation_time (stored_tokens events t)).0 ≡ time)
      × ((get_form_token (stored_tokens events t)).0 ≡ token)
unfolding stored_tokens get_creation_time get_form_token set_creation_time set_form_token
hidden_values env p time gap token t idle is_time time_fits some_gap passes_gap is_token
      token_fits =
    let (q, run, after) = time_run env p time idle is_time time_fits in
    let (gap_passed, before) = gap_run env q gap after some_gap passes_gap in
    let (r, more, _) = token_run env (at_tag q) token before is_token token_fits in
    let last =
      Runs-append env q (at_tag q) r gap (form_token_tag ++ (token ++ b'"' ∷ [])) []
        (form_token token ∷ []) gap_passed more in
    (
      r,
      creation_time time ∷ form_token token ∷ [],
      Runs-append env p q r (creation_time_tag ++ (time ++ b'"' ∷ []))
          (gap ++ (form_token_tag ++ (token ++ b'"' ∷ []))) (creation_time time ∷ [])
          (form_token token ∷ []) run last,
      refl,
      refl,
    )
