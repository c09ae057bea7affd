-- ===== src/Markup/Config.antt =====
-- parser.c: `parser_get_config`, on the attributes that ini.c reads from the file, in order.
use minichatclient.Base.{
  ◌≡◌, refl, ap, sym, Bool, ◌||◌, List, [], ◌∷◌, ◌++◌, map, append_assoc, append-nil, Option, none,
  some, Bytes, if◌then◌else◌, str_eq, codes,
}
use minichatclient.Markup.{Attribute}
use minichatclient.Markup.Output.{Rule, Line}

-- The lines read so far, the last one first, with their rules, the last one first.
abbrev pub Read : Type 0
Read = List Line

-- `rul`, the last rule that was made, in whichever line it is: it stays where a new line begins.
unfoldable pub set_last : (Rule → Rule) → Read → Read
set_last f [] = []
set_last f (line ∷ lines) = elim line.rules [
  | [] ↦ line ∷ set_last f lines
  | rul ∷ rules ↦ record line { rules = f rul ∷ rules } ∷ lines
]

-- A rule whose other fields are not set.
abbrev pub new_rule : Bytes → Rule
new_rule tag = record { tag = tag; value = none; start = none; stop = none }

abbrev pub add_rule : Bytes → Read → Read
add_rule tag [] = []
add_rule tag (line ∷ lines) = record line { rules = new_rule tag ∷ line.rules } ∷ lines

-- `filter_config`
unfoldable pub filter_config : Attribute → Bool
filter_config att =
    str_eq att.name (codes "context")
    || str_eq att.name (codes "tag")
    || str_eq att.name (codes "value")
    || str_eq att.name (codes "start")
    || str_eq att.name (codes "stop")

-- One turn of the loop.
unfoldable pub read_att : Attribute → Read → Read
unfolding set_last
read_att att lines =
    if str_eq att.name (codes "context")
    then record { context = att.value; rules = [] } ∷ lines
    else if str_eq att.name (codes "tag")
    then add_rule att.value lines
    else if str_eq att.name (codes "value")
    then set_last (λ rul. record rul { value = some att.value }) lines
    else if str_eq att.name (codes "start")
    then set_last (λ rul. record rul { start = some att.value }) lines
    else if str_eq att.name (codes "stop")
    then set_last (λ rul. record rul { stop = some att.value }) lines
    else lines

unfoldable pub read_atts : List Attribute → Read → Read
unfolding read_att filter_config
read_atts [] lines = lines
read_atts (att ∷ atts) lines =
    read_atts atts (if filter_config att then read_att att lines else lines)

abbrev pub rev {ℓ} : {A : Type ℓ} → List A → List A → List A
rev [] l = l
rev (a ∷ rest) l = rev rest (a ∷ l)

abbrev pub in_order : Read → List Line
in_order lines = rev (map (λ (line : Line). record line { rules = rev line.rules [] }) lines) []

-- Without a file there is no configuration.
unfoldable pub parser_get_config : Option (List Attribute) → Option (List Line)
unfolding read_atts
parser_get_config none = none
parser_get_config (some atts) = some (in_order (read_atts atts []))

-- A rule with all its fields, and the attributes that it is written with.
pub record FullRule : Type 0 where
  pub tag : Bytes
  pub value : Bytes
  pub start : Bytes
  pub stop : Bytes

abbrev pub rule_of : FullRule → Rule
rule_of r = record { tag = r.tag; value = some r.value; start = some r.start; stop = some r.stop }

abbrev pub att : Bytes → Bytes → Attribute
att name value = record { name = name; value = value }

abbrev pub written_rules : List FullRule → List Attribute
written_rules [] = []
written_rules (r ∷ rules) =
    att (codes "tag") r.tag
    ∷ att (codes "value") r.value
    ∷ att (codes "start") r.start
    ∷ att (codes "stop") r.stop
    ∷ written_rules rules

abbrev pub written : List (Bytes × List FullRule) → List Attribute
written [] = []
written ((context, rules) ∷ lines) =
    att (codes "context") context ∷ (written_rules rules ++ written lines)

read_atts-append :
    (a b : List Attribute) (lines : Read)
    → read_atts (a ++ b) lines ≡ read_atts b (read_atts a lines)
unfolding read_atts
read_atts-append [] b lines = refl
read_atts-append (x ∷ a) b lines = read_atts-append a b _

read_rules :
    (rules : List FullRule) (context : Bytes) (read : List Rule) (lines : Read)
    → read_atts (written_rules rules) (record { context = context; rules = read } ∷ lines)
      ≡ record { context = context; rules = rev (map rule_of rules) read } ∷ lines
unfolding read_atts read_att filter_config set_last str_eq
read_rules [] context read lines = refl
read_rules (r ∷ rules) context read lines = read_rules rules context (rule_of r ∷ read) lines

line_of : Bytes × List FullRule → Line
line_of l = record { context = l.0; rules = map rule_of l.1 }

rev-onto {ℓ} : {A : Type ℓ} (xs acc : List A) → rev xs acc ≡ rev xs [] ++ acc
rev-onto [] acc = refl
rev-onto (x ∷ xs) acc = rw (rev-onto xs (x ∷ acc), rev-onto xs (x ∷ [])) (simp append_assoc)

rev-rev {ℓ} : {A : Type ℓ} (xs acc : List A) → rev (rev xs acc) [] ≡ rev acc xs
rev-rev [] acc = refl
rev-rev (x ∷ xs) acc = rev-rev xs (x ∷ acc)

read_lines :
    (lines : List (Bytes × List FullRule)) (read : Read)
    → in_order (read_atts (written lines) read) ≡ in_order read ++ map line_of lines
unfolding read_atts read_att filter_config set_last str_eq line_of
read_lines [] read = sym (append-nil (in_order read))
read_lines ((context, rules) ∷ lines) read =
    let line : Line = record { context = context; rules = rev (map rule_of rules) [] } in
    rw
      (
        read_atts-append (written_rules rules) (written lines)
            (record { context = context; rules = [] } ∷ read),
        read_rules rules context [] read,
        read_lines lines (line ∷ read),
        rev-onto (map (λ (line : Line). record line { rules = rev line.rules [] }) read)
            (record line { rules = rev line.rules [] } ∷ []),
        rev-rev (map rule_of rules) [],
      )
      (simp append_assoc)

-- A configuration whose rules have all four fields is read back as it was written.
pub parser_get_config-written :
    (lines : List (Bytes × List FullRule))
    → parser_get_config (some (written lines))
      ≡ some (map (λ l. record { context = l.0; rules = map rule_of l.1 }) lines)
unfolding parser_get_config line_of
parser_get_config-written lines = ap some (read_lines lines [])
