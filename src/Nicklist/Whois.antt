-- ===== src/Nicklist/Whois.antt =====
-- nicklist.c: `nicklist_list_nicknames` and `nicklist_get_infos_for_whois`, and
-- `malloc_globalise_url` of main.c, which the second calls.
use minichatclient.Base.{
  ℕ, ◌+◌, ◌≡◌, refl, ap, ◌∙◌, true, false, List, [], ◌∷◌, ◌++◌, map, Option, none, some, arith,
  Bytes, drop, length, length-append, length-map, str_eq, str_case_eq, if◌then◌else◌, decimal,
  decimal_sub, codes, ◌==◌, append-nil, append_assoc,
}
use minichatclient.Text.Search.{starts_with}
use minichatclient.Text.Strings.{mconcat}
use minichatclient.Nicklist.{Entry}
use minichatclient.Nicklist.Distinct.{names}

-- The globals of main.c that say where the chat is.
pub record Site : Type 0 where
  pub host : Option Bytes
  pub port : Option Bytes
  pub path : Option Bytes

-- `port && port[0] && strcmp(port, "80")`, with the port's text.
abbrev pub other_port : Option Bytes → Option Bytes
other_port none = none
other_port (some []) = none
other_port (some (c ∷ port)) = if str_eq (c ∷ port) (codes "80") then none else some (c ∷ port)

-- The branch for a URL that begins with "./", where host and path are known.
unfoldable pub absolute_url : Option Bytes → Bytes → Bytes → Bytes → Bytes
unfolding mconcat
absolute_url none host path url = mconcat (codes "http://" ∷ host ∷ path ∷ drop 2 url ∷ [])
absolute_url (some port) host path url =
    mconcat (codes "http://" ∷ host ∷ codes ":" ∷ port ∷ path ∷ drop 2 url ∷ [])

-- The argument is not null where the program calls it.
unfoldable pub malloc_globalise_url : Site → Bytes → Bytes
unfolding absolute_url starts_with
malloc_globalise_url site url = elim site.host [
  | none ↦ url
  | some host ↦ elim site.path [
    | none ↦ url
    | some path ↦
        if starts_with (codes "./") url
        then absolute_url (other_port site.port) host path url
        else url
  ]
]

-- A nickname with its spaces replaced by underscores.
abbrev pub underscored : Bytes → Bytes
underscored = map (λ c. if c == b' ' then b'_' else c)

-- The first loop of `nicklist_list_nicknames`: the size of the block, for the zero at its end too.
unfoldable pub nicknames_size : List Entry → ℕ
nicknames_size [] = 1
nicknames_size (e ∷ l) = length e.nickname + 1 + nicknames_size l

unfoldable pub nicklist_list_nicknames : List Entry → Bytes
nicklist_list_nicknames [] = []
nicklist_list_nicknames (e ∷ l) = underscored e.nickname ++ b' ' ∷ nicklist_list_nicknames l

-- What the function writes through its five pointers.
pub record WhoisInfos : Type 0 where
  pub identinfos : Bytes
  pub realname : Bytes
  pub servinfos : Bytes
  pub urls : Bytes
  pub timesinfos : Bytes

abbrev or_question : Option Bytes → Bytes
or_question none = codes "?"
or_question (some s) = s

-- The branch of an entry that was found; the text of the times is far below the 100 bytes of `s1`.
unfoldable pub infos : Site → ℕ → Bytes → Entry → WhoisInfos
unfolding mconcat malloc_globalise_url decimal decimal_sub
infos site now fakehost e =
    let nick = underscored e.nickname in
    let idle =
      if e.lastmessage == 0 then decimal_sub now e.added else decimal_sub now e.lastmessage in
    record {
      identinfos =
          mconcat (nick ∷ codes " " ∷ or_question e.ident ∷ codes " " ∷ fakehost ∷ codes " *" ∷ []);
      realname = elim e.profile_url [ none ↦ codes "?" | some url ↦ malloc_globalise_url site url ];
      servinfos = mconcat (nick ∷ codes " minichatclient.sourceforge.net" ∷ []);
      urls = mconcat (
          e.nickname
          ∷ (if e.enterednow then codes " [NEW]" else codes " ")
          ∷ (if e.invisible then codes "[INVISIBLE] " else codes " ")
          ∷ elim e.icon_url [ none ↦ [] | some url ↦ malloc_globalise_url site url ]
          ∷ []);
      timesinfos = mconcat (nick ∷ codes " " ∷ (idle ++ b' ' ∷ decimal e.added) ∷ []);
    }

-- The search is by `strcasecmp`; `none` is the return value 0.
unfoldable pub nicklist_get_infos_for_whois :
    Site → ℕ → Bytes → Bytes → List Entry → Option WhoisInfos
unfolding infos str_case_eq
nicklist_get_infos_for_whois site now target fakehost [] = none
nicklist_get_infos_for_whois site now target fakehost (e ∷ l) =
    let rest = nicklist_get_infos_for_whois site now target fakehost l in
    if str_case_eq target e.nickname then some (infos site now fakehost e) else rest

-- The block that is allocated for the list of nicknames is filled exactly.
pub list_nicknames-fits :
    (l : List Entry) → nicknames_size l ≡ length (nicklist_list_nicknames l) + 1
unfolding nicknames_size nicklist_list_nicknames
list_nicknames-fits [] = omega arith
list_nicknames-fits (e ∷ l) = omega (
  arith,
  list_nicknames-fits l,
  length-append (underscored e.nickname) (b' ' ∷ nicklist_list_nicknames l),
  length-map (λ (c : ℕ). if c == b' ' then b'_' else c) e.nickname,
)

-- The words of a text, each ended by a space; `word` is what was read of the first one.
pub words_onto : Bytes → Bytes → List Bytes
words_onto word [] = []
words_onto word (c ∷ s) = elim (c == b' ') [
  | true ↦ word ∷ words_onto [] s
  | false ↦ words_onto (word ++ c ∷ []) s
]

words-underscored :
    (s word rest : Bytes)
    → words_onto word (underscored s ++ b' ' ∷ rest) ≡ (word ++ underscored s) ∷ words_onto [] rest
unfolding words_onto
words-underscored [] word rest = rw append-nil
words-underscored (c ∷ s) word rest =
    let c' = if c == b' ' then b'_' else c in
    ground (
      arith,
      words-underscored s (word ++ c' ∷ []) rest,
      append_assoc word (c' ∷ []) (underscored s),
    )

-- Cut at its spaces, the list that an IRC client is sent has one word for each person, in order:
-- the nickname with underscores for its spaces.
pub list_nicknames-words :
    (l : List Entry) → words_onto [] (nicklist_list_nicknames l) ≡ map underscored (names l)
unfolding nicklist_list_nicknames
list_nicknames-words [] = unfold words_onto in refl
list_nicknames-words (e ∷ l) =
    words-underscored e.nickname [] (nicklist_list_nicknames l)
    ∙ ap (◌∷◌ (underscored e.nickname)) (list_nicknames-words l)
