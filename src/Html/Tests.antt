-- ===== src/Html/Tests.antt =====
-- parsehtml.c: pages of the chat as test data.
use minichatclient.Base.{
  ℕ, All, str_eq, ◌<◌, ◌+◌, ◌≡◌, ◌≢◌, length, refl, true, List, [], ◌∷◌, ◌++◌, Option, none, some,
  Bytes, codes, map, c_string, arith, write,
}
use minichatclient.Cookies.Tokens.{get_creation_time, get_form_token}
use minichatclient.Html.{Event, Parser, Env, says, topic, recup_start, recup_name, recup_end}
use minichatclient.Text.Strings.{html_strip_tags}
use minichatclient.Text.Replace.{strrep, strrep_text}
use minichatclient.Text.Search.{strstr}
use minichatclient.Html.Steps.{
  step_ready, step_before_username, step_message, step_stats, step_users, step_users_in_a,
  step_until, step_users_in_username, step_msg_id, step_watch, creation_time_tag, form_token_tag,
}
use minichatclient.Html.Page.{sync, number, parse_loop, parse_minichat_mess, receive, initial}
use minichatclient.Html.Pieces.{receive-concat}
use minichatclient.Html.Safety.{IsModest}
use minichatclient.Html.Safety.Runs.{
  IsSafe, begun, initial-IsSafe, roomy, parse_minichat_mess-IsSafe,
}
use minichatclient.Html.Idle.{passed}
use minichatclient.Html.Reads.{sought}
use minichatclient.Html.Bodies.{body_ends}
use minichatclient.Html.Blocks.{Block, IsBlock, IsIdle, block, message_in}
use minichatclient.Html.Messages.{receive-page}
use minichatclient.Markup.Output.{Line, parse_html_in_message}
use minichatclient.Html.Safety.{GivesText}
use minichatclient.Html.Rules.{rules_of, with_rules, receive-plain_page}
use minichatclient.Html.Values.{hidden_values, stored_tokens}

abbrev plain : Env
plain = record { decode = λ s. s; config = none }

plain-IsModest : IsModest plain
plain-IsModest = record { shrinks = λ s. omega arith; rewrites = λ s rules e. cc }

abbrev one : Block
one = record {
  before = codes "<p>";
  id = codes "12";
  before_icon = codes "<img src=\"";
  icon = codes "a.png";
  before_profile = codes "<b><a href=\".";
  profile = codes "/m.php&u=7";
  before_name = codes " class=\"u\"";
  name = codes "bob";
  before_text = codes "/a><div class=\"avatarMessage mChatMessage\">";
  text = codes "hi <b>x</b>!";
}

abbrev with_text : Bytes → Block
with_text text = record one { text = text }

text-IsBlock :
    (text : Bytes)
    → body_ends 0 0 (text ++ codes "</div>") ≡ true
    → All (λ c. c ≢ 0) text
    → length text + 6 < 2000
    → IsBlock (with_text text)
unfolding passed sought
text-IsBlock text ends zeros fits = record {
  passed_over = refl;
  id_text = ground arith;
  id_fits = omega arith;
  icon_sought = refl;
  icon_text = ground arith;
  icon_fits = omega arith;
  profile_sought = refl;
  profile_text = ground arith;
  profile_fits = omega arith;
  tag_goes_on = ground arith;
  name_text = ground arith;
  name_fits = omega arith;
  text_sought = refl;
  text_ends = ends;
  text_zeros = zeros;
  text_fits = fits;
}

one-IsBlock : IsBlock one
unfolding body_ends
one-IsBlock = text-IsBlock one.text refl (ground arith) (omega arith)

abbrev the_list : Bytes
the_list =
    codes
      "<div class=\"mChatStats\" id=\"mChatStats\">2  users ( <b>all</b> ) <br /><a href=\"./m.php&u=7\" class=\"x\">bob</a>, <a href=\"./m.php&u=8\">eve</a></div>"

abbrev events_of : Option (Parser × List Event) → List Event
events_of none = []
events_of (some (_, events)) = events

users :
    events_of (parse_loop plain initial the_list)
    ≡ topic (codes "2 users (all) ")
      ∷ recup_start
      ∷ recup_name (codes "bob") (some (codes "./m.php&u=7"))
      ∷ recup_name (codes "eve") (some (codes "./m.php&u=8"))
      ∷ recup_end
      ∷ []
unfolding parse_loop step_ready step_stats html_strip_tags c_string strrep strrep_text strstr
    step_users step_users_in_a step_until step_users_in_username
users = refl

initial-roomy : roomy plain (begun true initial) (block one) ≡ true
unfolding roomy step_ready step_msg_id write step_watch step_until c_string step_before_username
    step_message
initial-roomy = refl

initial-IsIdle : IsIdle initial
unfolding sync number
initial-IsIdle = (refl, refl, omega arith)

parse_minichat_mess-IsSafe_example :
    (n : ℕ) × (q : Parser) × (events : List Event) × (parse_minichat_mess plain true
        (block one)
        initial
      ≡ some (n, q, events))
    × IsSafe q
parse_minichat_mess-IsSafe_example =
    parse_minichat_mess-IsSafe plain true (block one) initial plain-IsModest initial-IsSafe
      initial-roomy

receive-concat_example :
    receive plain true 0 (block one ∷ the_list ∷ []) initial
    ≡ parse_minichat_mess plain true (block one ++ (the_list ++ [])) initial
receive-concat_example =
    receive-concat plain 0 (block one) (the_list ∷ []) initial (λ e. cc) ((λ e. cc), tt)

abbrev lines : List Line
lines =
    record {
      context = [];
      rules =
          record { tag = []; value = some []; start = some (codes "*"); stop = some (codes "*") }
          ∷ [];
    }
    ∷ []

abbrev ruled : Env
ruled = with_rules (λ s. s) lines

shown_bold : rules_of lines one.text ≡ some (codes "hi *x*!")
unfolding rules_of parse_html_in_message str_eq
shown_bold = refl

one-GivesText : GivesText ruled one.text
one-GivesText rules e = ground (arith, shown_bold, e)

receive-page_example :
    (q : Parser) × (receive ruled true 0 (block one ∷ block one ∷ []) initial
      ≡ some (2, q, map (λ b. says (message_in ruled b)) (one ∷ one ∷ [])))
receive-page_example =
    receive-page ruled 0 (block one) (block one ∷ []) initial one (one ∷ []) (λ s. omega arith)
      (one-GivesText, (one-GivesText, tt)) refl refl refl (one-IsBlock, (one-IsBlock, tt)) (λ e. cc)
      ((λ e. cc), tt) refl

hidden_values_example :
    (q : Parser) × (events : List Event) × (parse_loop plain initial (
        (creation_time_tag ++ (codes "1700" ++ b'"' ∷ []))
        ++ (codes ">" ++ (form_token_tag ++ (codes "ab" ++ b'"' ∷ []))))
      ≡ some (q, events))
    × ((get_creation_time
          (stored_tokens events (record { creation_time = none; form_token = none }))).0
        ≡ codes "1700")
    × ((get_form_token
          (stored_tokens events (record { creation_time = none; form_token = none }))).0
        ≡ codes "ab")
unfolding passed
hidden_values_example =
    hidden_values plain initial (codes "1700") (codes ">") (codes "ab")
      (record { creation_time = none; form_token = none }) initial-IsIdle (ground arith)
      (omega arith) (λ e. cc) refl (ground arith) (omega arith)

abbrev bare : Block
bare = with_text (codes "hello")

bare-IsBlock : IsBlock bare
unfolding body_ends
bare-IsBlock = text-IsBlock (codes "hello") refl (ground arith) (omega arith)

receive-plain_page_example :
    (q : Parser) × (receive ruled true 0 (block bare ∷ []) initial
      ≡ some (1, q, map (λ b. says (message_in plain b)) (bare ∷ [])))
receive-plain_page_example =
    receive-plain_page (λ s. s) lines 0 (block bare) [] initial bare [] (λ s. omega arith)
      (ground arith, tt) refl refl refl (bare-IsBlock, tt) (λ e. cc) tt refl
