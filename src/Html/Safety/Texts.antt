-- ===== src/Html/Safety/Texts.antt =====
-- parsehtml.c: the cases that end the text of a message, or of the topic, keep the parser safe.
use minichatclient.Base.{
  ℕ, suc, zero, ◌+◌, ◌-◌, ◌<◌, ◌≤◌, ◌≡◌, ◌≢◌, refl, Bool, true, [], ◌∷◌, ◌++◌, Option, none, some,
  Bytes, length, length-append, length-take_le, ltb, take, arith, is_some, codes, c_string,
  length-c_string, Option-cases, inl, inr, Bool-cases,
}
use minichatclient.Html.{
  Parser, Env, ready, in_message, in_message_and_in_div, looking_for_stats, looking_for_users, put,
  close, decode_into, says, watchfor, string_at,
}
use minichatclient.Html.Steps.{
  step_message, step_stats, cut_div, message_text, message_of, end_message, sanitized, topic_of,
  end_topic, end_stats,
}
use minichatclient.Main.Message.{Message}
use minichatclient.Text.Replace.{strrep}
use minichatclient.Text.Replace.Pieces.{strrep_text-Replaced}
use minichatclient.Text.Strings.{html_strip_tags}
use minichatclient.Text.Strings.Laws.{html_strip_tags-IsBare}
use minichatclient.Html.Watch.{watchfor-Found, watchfor2-Found}
use minichatclient.Html.Page.{number}
use minichatclient.Html.Safety.{
  Apart, IsSynced, Safely, IsModest, IsShrinking, GivesText, stays, moves, grown, shortened,
}

decode_into-some :
    (env : Env) (size : ℕ) (text : Bytes)
    → IsShrinking env
    → length text < size
    → decode_into env size text ≡ some (env.decode text)
unfolding decode_into
decode_into-some env size text shrinks h = ground (arith, shrinks text)

-- There is a result.
abbrev IsDefined {ℓ} : {A : Type ℓ} → Option A → Type ℓ
IsDefined {A = A} o = (a : A) × (o ≡ some a)

-- The text that is shown for a message.
unfoldable pub rewritten : Env → Bytes → Bytes
rewritten env text = elim env.config [
  | none ↦ env.decode text
  | some rules ↦ elim (rules text) [ none ↦ [] | some tmp ↦ env.decode tmp ]
]

message_text-rewritten :
    (env : Env) (out : Bytes)
    → IsShrinking env
    → GivesText env (c_string out)
    → message_text env out ≡ some (rewritten env (c_string out))
unfolding message_text rewritten
message_text-rewritten env out shrinks gives = elim (Option-cases env.config) [
  | inl e ↦
      rw (e, message_text)
        (decode_into-some env (length out + 1) (c_string out) shrinks
          (omega (arith, length-c_string out)))
  | inr (rules, e) ↦ elim (Option-cases (rules (c_string out))) [
    | inl none_of ↦ ground (arith, gives rules e)
    | inr (tmp, r) ↦
        ground (arith, e, r, decode_into-some env (length tmp + 1) tmp shrinks (omega arith))
  ]
]

abbrev pub posted : Parser → Bytes → Bytes → Message
posted p name text = record {
  username = name;
  message = text;
  usericonurl = p.usericonurl;
  userprofileurl = p.userprofileurl;
  msgid = c_string p.msgid;
}

-- The buffer without the end tag.
abbrev pub without_tag : Parser → Bytes
without_tag p = take (length p.out - 6) p.out

-- The parser behind a message.
abbrev pub ended : Env → Parser → Parser
ended env p = record p {
  out = without_tag p;
  message = some (rewritten env (c_string (without_tag p)));
  state = ready;
}

-- A message ends with nothing out of bounds, and is handed over.
pub end_message-says :
    (env : Env) (p : Parser) (name : Bytes)
    → IsShrinking env
    → GivesText env (c_string (without_tag p))
    → 6 ≤ length p.out
    → p.username ≡ some name
    → end_message env true p
      ≡ some (ended env p, says (posted p name (rewritten env (c_string (without_tag p)))) ∷ [])
unfolding end_message cut_div message_of
end_message-says env p name shrinks gives long named =
    let cut : cut_div p.out ≡ some (without_tag p) = ground (arith, long) in
    rw (cut, message_text-rewritten env (without_tag p) shrinks gives, named)

named_of : (o : Option Bytes) → is_some o ≡ true → (name : Bytes) × (o ≡ some name)
named_of none h = cc
named_of (some name) h = (name, refl)

sanitized-IsDefined :
    (needle replace tmp : Bytes) → needle ≢ [] → IsDefined (sanitized needle replace tmp)
unfolding sanitized strrep
sanitized-IsDefined needle replace tmp ne =
    let (n, text, e, _) = strrep_text-Replaced tmp needle replace ne in (text, rw e)

topic_of-IsDefined : (env : Env) (out : Bytes) → IsModest env → IsDefined (topic_of env out)
unfolding topic_of
topic_of-IsDefined env out modest =
    let tmp = env.decode (html_strip_tags (c_string out)) in
    let (t₁, e₁) = sanitized-IsDefined (codes "  ") (codes " ") tmp (λ e. cc) in
    let (t₂, e₂) = sanitized-IsDefined (codes "( ") (codes "(") t₁ (λ e. cc) in
    let (t₃, e₃) = sanitized-IsDefined (codes " )") (codes ")") t₂ (λ e. cc) in
    let (t₄, e₄) = sanitized-IsDefined (codes "  ") (codes " ") t₃ (λ e. cc) in
    let (t₅, e₅) = sanitized-IsDefined (codes "  ") (codes " ") t₄ (λ e. cc) in
    (
      t₅,
      rw
          (
            decode_into-some env (length out + 1) (html_strip_tags (c_string out)) modest.shrinks
                (omega (arith, length-c_string out, (html_strip_tags-IsBare (c_string out)).1)),
            e₁,
            e₂,
            e₃,
            e₄,
          )
          e₅,
    )

pub step_message-Safely :
    (env : Env) (p : Parser) (c : ℕ)
    → IsModest env
    → IsSynced in_message p
    → Safely in_message (step_message env p c)
unfolding step_message put number end_message
step_message-Safely env p c modest v =
    let watched = watchfor-Found (codes "</div>") c p.j v.fits.0 in
    let opened = watchfor2-Found (codes "<div>") (codes "<div ") c p.l refl v.fits.1 in
    let out = p.out ++ c ∷ [] in
    let longer : length out ≡ length p.out + 1 = length-append p.out (c ∷ []) in
    let q : Parser = record p { out = out; j = watched.counter } in
    let room : ltb (length p.out) 2000 ≡ true = ground (arith, v.room) in
    let kept = grown in_message p c v in
    elim (Bool-cases watched.found) [
      | inl e ↦
          let (name, named) = named_of p.username v.fits.3 in
          let is_ended =
            end_message-says env q name modest.shrinks (modest.rewrites (c_string (without_tag q)))
              (omega (arith, watched.at_end e)) named in
          let r : Parser = record (ended env q) { l = opened.counter } in
          let cut =
            shortened in_message q (take (length out - 6) out) (length-take_le (length out - 6) out)
              kept in
          ground (
            arith,
            room,
            watched.answers,
            e,
            is_ended,
            opened.answers,
            moves in_message ready r refl cut tt refl,
            moves in_message in_message_and_in_div (record r { state = in_message_and_in_div }) refl
                cut v.fits.3 refl,
          )
      | inr e ↦
          let r : Parser = record q { l = opened.counter } in
          ground (
            arith,
            room,
            watched.answers,
            e,
            opened.answers,
            stays in_message r v.in_state kept
                (watched.below, opened.below, omega (arith, watched.grows), v.fits.3),
            moves in_message in_message_and_in_div (record r { state = in_message_and_in_div }) refl
                kept v.fits.3 refl,
          )
    ]

abbrev ApartAfter : Option (Bool × ℕ) → Option (Bool × ℕ) → Type 0
ApartAfter (some (f, j)) (some (g, l)) = Apart j l
ApartAfter _ _ = Unit

watchfor-Apart :
    (c j l : ℕ)
    → j < 6
    → l < 6
    → Apart j l
    → ApartAfter (watchfor (codes "</div>") c j) (watchfor (codes "<br />") c l)
unfolding watchfor string_at
watchfor-Apart c zero zero h k a = ground arith
watchfor-Apart c zero (suc zero) h k a = ground arith
watchfor-Apart c zero (suc (suc zero)) h k a = ground arith
watchfor-Apart c zero (suc (suc (suc zero))) h k a = ground arith
watchfor-Apart c zero (suc (suc (suc (suc zero)))) h k a = ground arith
watchfor-Apart c zero (suc (suc (suc (suc (suc zero))))) h k a = ground arith
watchfor-Apart c (suc zero) zero h k a = ground arith
watchfor-Apart c (suc zero) (suc zero) h k a = ground arith
watchfor-Apart c (suc (suc zero)) zero h k a = ground arith
watchfor-Apart c (suc (suc (suc zero))) zero h k a = ground arith
watchfor-Apart c (suc (suc (suc (suc zero)))) zero h k a = ground arith
watchfor-Apart c (suc (suc (suc (suc (suc zero))))) zero h k a = ground arith
watchfor-Apart c j l h k a = ground arith

pub step_stats-Safely :
    (env : Env) (p : Parser) (c : ℕ)
    → IsModest env
    → IsSynced looking_for_stats p
    → Safely looking_for_stats (step_stats env p c)
unfolding step_stats put number end_topic end_stats close cut_div
step_stats-Safely env p c modest v =
    let lined = watchfor-Found (codes "<br />") c p.l v.fits.1 in
    let closed = watchfor-Found (codes "</div>") c p.j v.fits.0 in
    let out = p.out ++ c ∷ [] in
    let longer : length out ≡ length p.out + 1 = length-append p.out (c ∷ []) in
    let room : ltb (length p.out) 2000 ≡ true = ground (arith, v.room) in
    let q : Parser = record p { out = out; j = closed.counter; l = lined.counter } in
    let (text, is_text) = topic_of-IsDefined env out modest in
    let apart : Apart closed.counter lined.counter =
      rw (closed.answers, lined.answers) at (watchfor-Apart c p.j p.l v.fits.0 v.fits.1 v.fits.3) in
    let (text', is_text') = topic_of-IsDefined env (take (length out - 6) out) modest in
    let kept = grown looking_for_stats p c v in
    let emptied = shortened looking_for_stats q [] (omega arith) kept in
    elim (Bool-cases lined.found) [
      | inl e ↦ elim (Bool-cases closed.found) [
        | inl f ↦ ground (arith, lined.at_end e, closed.at_end f, v.fits.3)
        | inr f ↦ ground (
          arith,
          room,
          lined.answers,
          e,
          closed.answers,
          f,
          is_text,
          longer,
          v.room,
          moves looking_for_stats looking_for_users
              (record q { out = []; state = looking_for_users }) refl emptied tt refl,
        )
      ]
      | inr e ↦ elim (Bool-cases closed.found) [
        | inl f ↦ ground (
          arith,
          room,
          lined.answers,
          e,
          closed.answers,
          f,
          is_text',
          closed.at_end f,
          moves looking_for_stats ready (record q { out = []; state = ready }) refl emptied tt refl,
        )
        | inr f ↦ ground (
          arith,
          room,
          lined.answers,
          e,
          closed.answers,
          f,
          stays looking_for_stats q v.in_state kept
              (closed.below, lined.below, omega (arith, closed.grows), apart),
        )
      ]
    ]
