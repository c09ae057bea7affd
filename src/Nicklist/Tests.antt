-- ===== src/Nicklist/Tests.antt =====
-- The theorems on nicklist.c at concrete inputs, and runs of the code.
use minichatclient.Base.{◌≡◌, refl, false, List, [], ◌∷◌, some, none, arith, Bytes, codes, str_eq}
use minichatclient.Text.Search.{strstr}
use minichatclient.Nicklist.{
  Entry, Event, display, join, part, show_topic, nicklist_init, new_listed, nicklist_msg_update,
  nicklist_recup_name, nicklist_recup_end, find,
}
use minichatclient.Nicklist.Distinct.{Distinct, replay}
use minichatclient.Nicklist.Members.{Call, msg_update, recup_name, recup_end, run, run-agrees}
use minichatclient.Nicklist.Expiry.{kept, recup_end-find}
use minichatclient.Nicklist.Whois.{nicklist_list_nicknames}

abbrev profile : Bytes
profile = codes "member.php?mode=view&u=7"

-- Two people come, one of them is seen no more, and is gone after a minute.
abbrev visit : List Call
visit =
    recup_name 0 (some (codes "Ann Lee")) (some profile)
    ∷ recup_name 0 (some (codes "bob")) (some profile)
    ∷ recup_end 0
    ∷ msg_update 50 (some (codes "bob")) (some profile) none
    ∷ recup_end 61
    ∷ []

abbrev ann : Entry
ann = new_listed 0 (codes "Ann Lee") (some profile) (codes "7")

abbrev bob : Entry
bob = new_listed 0 (codes "bob") (some profile) (codes "7")

abbrev bob_later : Entry
bob_later = record bob { enterednow = false; lastseen = 50; lastmessage = 50 }

abbrev visit_events : List Event
visit_events =
    join (codes "Ann Lee") (some (codes "7"))
    ∷ join (codes "bob") (some (codes "7"))
    ∷ display none
    ∷ display (some (codes "Ann Lee"))
    ∷ display (some (codes "bob"))
    ∷ show_topic
    ∷ display none
    ∷ part (codes "Ann Lee") (some (codes "7")) none
    ∷ display (some (codes "bob"))
    ∷ show_topic
    ∷ []

run-visit : run visit nicklist_init ≡ some (bob_later ∷ [], visit_events)
unfolding run nicklist_recup_name nicklist_msg_update nicklist_recup_end strstr str_eq
run-visit = refl

run-agrees_example : Distinct (codes "bob" ∷ []) × (replay [] visit_events ≡ codes "bob" ∷ [])
run-agrees_example = run-agrees visit (bob_later ∷ []) visit_events run-visit

recup_end-find_example :
    find (codes "bob") (nicklist_recup_end 100 (ann ∷ bob ∷ [])).0
    ≡ kept 100 (find (codes "bob") (ann ∷ bob ∷ []))
recup_end-find_example =
    recup_end-find 100 (codes "bob") (ann ∷ bob ∷ []) (unfold str_eq in ground arith)

bob_talks :
    nicklist_msg_update 50 (some (codes "bob")) (some profile) none (ann ∷ bob ∷ [])
    ≡ some (ann ∷ bob_later ∷ [], [])
unfolding nicklist_msg_update str_eq
bob_talks = refl

listed_text : nicklist_list_nicknames (ann ∷ bob ∷ []) ≡ codes "Ann_Lee bob "
unfolding nicklist_list_nicknames
listed_text = refl
