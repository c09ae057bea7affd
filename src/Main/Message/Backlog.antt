-- ===== src/Main/Message/Backlog.antt =====
-- main.c: the messages of a page, one after the other: what is new, and what was known.
use mathlib.Core.Path.{subst}
use minichatclient.Base.{
  All-map, sym, ◌∙◌, ℕ, zero, suc, ◌+◌, ◌-◌, ◌*◌, ◌<◌, ◌≤◌, ◌≡◌, refl, ap, append-nil, append_assoc,
  Bool, true, false, List, [], ◌∷◌, ◌++◌, map, Option, none, some, inl, inr, arith, Bytes, All,
  Bool-cases, ◌>>=◌, length, digits, is_digit, ltb, ◌==◌, if◌then◌else◌, is_some, codes,
}
use minichatclient.Text.Strings.{mconcat}
use minichatclient.Nicklist.{nicklist_alloc_ident}
use minichatclient.Main.Message.{is_above, Message, Effect, logs, tells, shows, minichat_message}

unfoldable pub run_messages :
    Bool → Option Bytes → List Message → Option (Option Bytes × List Effect)
run_messages is_backlog known [] = some (known, [])
run_messages is_backlog known (m ∷ messages) = do
  (known', effects) ← minichat_message is_backlog known m
  (known'', more) ← run_messages is_backlog known' messages
  some (known'', effects ++ more)

-- The number that an id is.
abbrev pub id_number : Bytes → ℕ
id_number id = digits 0 id

-- An id of digits only, as many as are given.
abbrev pub IsId : ℕ → Bytes → Type 0
IsId width id = All (λ c. is_digit c ≡ true) id × (length id ≡ width)

-- The earlier digits count more.
digits-lt :
    (a b : Bytes) (v w : ℕ)
    → All (λ c. is_digit c ≡ true) a
    → All (λ c. is_digit c ≡ true) b
    → length a ≡ length b
    → v < w
    → digits v a < digits w b
unfolding digits
digits-lt [] [] v w h k e lt = lt
digits-lt [] (y ∷ b) v w h k e lt = absurd (omega arith)
digits-lt (x ∷ a) [] v w h k e lt = absurd (omega arith)
digits-lt (x ∷ a) (y ∷ b) v w h k e lt =
    let more : v * 10 + (x - b'0') < w * 10 + (y - b'0') = ground arith in
    rw (h.0, k.0)
      (digits-lt a b (v * 10 + (x - b'0')) (w * 10 + (y - b'0')) h.1 k.1 (omega arith) more)

-- `strncmp` orders two ids of the same length as numbers.
above-digits :
    (n : ℕ) (a b : Bytes) (v : ℕ)
    → All (λ c. is_digit c ≡ true) a
    → All (λ c. is_digit c ≡ true) b
    → length a ≡ length b
    → length a ≤ n
    → is_above n a b ≡ ltb (digits v b) (digits v a)
unfolding is_above digits
above-digits zero [] [] v h k e fits = ground arith
above-digits (suc n) [] [] v h k e fits = ground arith
above-digits n [] (y ∷ b) v h k e fits = absurd (omega arith)
above-digits n (x ∷ a) [] v h k e fits = absurd (omega arith)
above-digits zero (x ∷ a) (y ∷ b) v h k e fits = absurd (omega arith)
above-digits (suc n) (x ∷ a) (y ∷ b) v h k e fits = elim (Bool-cases (x == y)) [
  | inl same ↦
      let is : x ≡ y = ground arith in
      rw
        (h.0, k.0, is, above-digits n a b (v * 10 + (y - b'0')) h.1 k.1 (omega arith) (omega arith))
        (ground arith)
  | inr differ ↦ elim (Bool-cases (ltb y x)) [
    | inl below ↦
        let lt =
          digits-lt b a (v * 10 + (y - b'0')) (v * 10 + (x - b'0')) k.1 h.1 (omega arith)
            (ground arith) in
        rw (h.0, k.0, differ, below) (ground arith)
    | inr above ↦
        let lt =
          digits-lt a b (v * 10 + (x - b'0')) (v * 10 + (y - b'0')) h.1 k.1 (omega arith)
            (ground arith) in
        rw (h.0, k.0, differ, above) (ground arith)
  ]
]

-- Each message has a higher number than those before it.
abbrev pub IsAscending : List Message → Type 0
IsAscending [] = Unit
IsAscending (m ∷ messages) =
    All (λ later. id_number m.msgid < id_number later.msgid) messages × IsAscending messages

-- The messages with a number above this one.
abbrev pub later : ℕ → List Message → List Message
later k [] = []
later k (m ∷ messages) =
    let rest = later k messages in if ltb k (id_number m.msgid) then m ∷ rest else rest

-- The id of the last one of the messages.
abbrev pub last_id : Bytes → List Message → Bytes
last_id known [] = known
last_id known (m ∷ messages) = last_id m.msgid messages

abbrev pub text_of : Message → Bytes
text_of m = codes "<" ++ (m.username ++ (codes "> " ++ m.message))

abbrev pub said : Message → Bytes × Bytes
said m = (m.username, m.message)

-- What an effect shows, puts into the log, and sends to the IRC client.
abbrev pub shown : List Effect → List Bytes
shown [] = []
shown (shows text ∷ effects) = text ∷ shown effects
shown (_ ∷ effects) = shown effects

abbrev pub logged : List Effect → List Bytes
logged [] = []
logged (logs line ∷ effects) = line ∷ logged effects
logged (_ ∷ effects) = logged effects

abbrev pub told : List Effect → List (Bytes × Bytes)
told [] = []
told (tells username ident message ∷ effects) = (username, message) ∷ told effects
told (_ ∷ effects) = told effects

-- A profile with an ident: without one, the message is undefined behaviour.
abbrev pub HasIdent : Message → Type 0
HasIdent m = is_some (nicklist_alloc_ident m.userprofileurl) ≡ true

later-all :
    (k : ℕ) (messages : List Message)
    → All (λ m. k < id_number m.msgid) messages
    → later k messages ≡ messages
later-all k [] h = refl
later-all k (m ∷ messages) h =
    let above : ltb k (id_number m.msgid) ≡ true = ground (arith, h.0) in
    rw above (ap (◌∷◌ m) (later-all k messages h.1))

message-known :
    (known : Bytes) (m : Message)
    → is_above 29 m.msgid known ≡ false
    → minichat_message true (some known) m ≡ some (some known, shows (text_of m) ∷ [])
unfolding minichat_message mconcat
message-known known m h = ground (arith, append-nil m.message)

message-new :
    (known : Bytes) (m : Message) (ident : Bytes)
    → is_above 29 m.msgid known ≡ true
    → nicklist_alloc_ident m.userprofileurl ≡ some ident
    → minichat_message true (some known) m
      ≡ some (
        some m.msgid,
        shows (text_of m)
            ∷ logs (text_of m ++ codes "\r\n")
            ∷ tells m.username ident m.message
            ∷ [],
      )
unfolding minichat_message mconcat
message-new known m ident h e = rw (h, e) (simp (append-nil, append_assoc))

-- What a run over the messages gives, where `new` are those that are not known.
abbrev pub Reported :
    Bytes → List Message → List Message → Option (Option Bytes × List Effect) → Type 0
Reported known messages new run =
    (effects : List Effect) × (run ≡ some (some (last_id known new), effects))
    × (shown effects ≡ map text_of messages)
    × (logged effects ≡ map (λ m. text_of m ++ codes "\r\n") new)
    × (told effects ≡ map said new)

has_ident : (o : Option Bytes) → is_some o ≡ true → (ident : Bytes) × (o ≡ some ident)
has_ident none h = cc
has_ident (some ident) h = (ident, refl)

Reported-new :
    (known : Bytes) (m : Message) (messages news : List Message) (ident : Bytes)
    → is_above 29 m.msgid known ≡ true
    → nicklist_alloc_ident m.userprofileurl ≡ some ident
    → Reported m.msgid messages news (run_messages true (some m.msgid) messages)
    → Reported known (m ∷ messages) (m ∷ news) (run_messages true (some known) (m ∷ messages))
unfolding run_messages
Reported-new known m messages news ident above is (effects, run, show, log, tell) = (
  shows (text_of m) ∷ logs (text_of m ++ codes "\r\n") ∷ tells m.username ident m.message ∷ effects,
  rw (message-new known m ident above is, run) refl,
  ap (◌∷◌ (text_of m)) show,
  ap (◌∷◌ (text_of m ++ codes "\r\n")) log,
  ap (◌∷◌ (said m)) tell,
)

Reported-known :
    (known : Bytes) (m : Message) (messages news : List Message)
    → is_above 29 m.msgid known ≡ false
    → Reported known messages news (run_messages true (some known) messages)
    → Reported known (m ∷ messages) news (run_messages true (some known) (m ∷ messages))
unfolding run_messages
Reported-known known m messages news not_above (effects, run, show, log, tell) = (
  shows (text_of m) ∷ effects,
  rw (message-known known m not_above, run) refl,
  ap (◌∷◌ (text_of m)) show,
  log,
  tell,
)

-- Behind a message with a higher number than the known one, none is known.
later-behind :
    (known : Bytes) (m : Message) (messages : List Message)
    → ltb (id_number known) (id_number m.msgid) ≡ true
    → All (λ n. id_number m.msgid < id_number n.msgid) messages
    → later (id_number known) (m ∷ messages) ≡ m ∷ later (id_number m.msgid) messages
later-behind known m messages e up =
    let above =
      All-map (λ (n : Message). id_number m.msgid < id_number n.msgid)
        (λ (n : Message). id_number known < id_number n.msgid) messages
        (λ n lt. ground (arith, lt, e)) up in
    rw e (
      ap (◌∷◌ m) (
        later-all (id_number known) messages above
        ∙ sym (later-all (id_number m.msgid) messages up)))

-- The backlog is read again after a new login. The ids are numbers of as many digits as the one that
-- is known, 29 at most, and each is higher than those before it. Then all messages are shown, and
-- those with a higher number than the known id, and only those, are put into the log and sent to the
-- IRC client, each once and in order; the id of the last of them becomes the known one. These
-- have a profile with an ident.
pub run_messages-later :
    (width : ℕ) (known : Bytes) (messages : List Message)
    → width ≤ 29
    → IsId width known
    → All (λ m. IsId width m.msgid) messages
    → IsAscending messages
    → All HasIdent (later (id_number known) messages)
    → Reported known messages
        (later (id_number known) messages)
        (run_messages true (some known) messages)
unfolding run_messages
run_messages-later width known [] fits id ids up idents = ([], refl, refl, refl, refl)
run_messages-later width known (m ∷ messages) fits id ids up idents =
    let numbers : is_above 29 m.msgid known ≡ ltb (id_number known) (id_number m.msgid) =
      above-digits 29 m.msgid known 0 ids.0.0 id.0 (omega (arith, ids.0.1, id.1))
        (omega (arith, ids.0.1, fits)) in
    elim (Bool-cases (ltb (id_number known) (id_number m.msgid))) [
      | inl e ↦
          let is_new = later-behind known m messages e up.0 in
          let (first, others) : All HasIdent (m ∷ later (id_number m.msgid) messages) =
            subst (All HasIdent) is_new idents in
          let (ident, is) = has_ident (nicklist_alloc_ident m.userprofileurl) first in
          subst
            (λ news.
              Reported known (m ∷ messages) news (run_messages true (some known) (m ∷ messages)))
            (sym is_new)
            (Reported-new known m messages (later (id_number m.msgid) messages) ident (numbers ∙ e)
              is (run_messages-later width m.msgid messages fits ids.0 ids.1 up.1 others))
      | inr e ↦
          let is_known : later (id_number known) (m ∷ messages) ≡ later (id_number known) messages =
            rw e refl in
          subst
            (λ news.
              Reported known (m ∷ messages) news (run_messages true (some known) (m ∷ messages)))
            (sym is_known)
            (Reported-known known m messages (later (id_number known) messages) (numbers ∙ e) (
              run_messages-later width known messages fits id ids.1 up.1
                (subst (All HasIdent) is_known idents)))
    ]
