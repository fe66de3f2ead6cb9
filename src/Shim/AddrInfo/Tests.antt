-- ===== src/Shim/AddrInfo/Tests.antt =====
-- A result of two entries, and one for which `malloc` fails.
use ax88179_aroma_driver.Base.{ℕ, ◌≡◌, ◌≢◌, refl, Option, none, some, List, [], ◌∷◌, pos}
use ax88179_aroma_driver.Shim.AddrInfo.{
  Entry, Results, Reply, getaddrinfo_sync, build, append_node, finish_list, finished, give_up,
  gave_up, lwip_freeaddrinfo, free_list, next_node, remember,
}
use ax88179_aroma_driver.Shim.AddrInfo.Neutral.{Answers, getaddrinfo_sync-Answers}

abbrev entry : Entry
entry = record {
  flags = pos 0;
  family = pos 2;
  socktype = pos 1;
  protocol = pos 6;
  addr = record { family = 2; port = 80; addr = 1 };
  canonname = none;
}

abbrev no_results : Results
no_results = record { lwip_lists = 0; memory = λ x. none; owned = λ i. none }

abbrev two : List (Entry × Option ℕ)
two = (entry, some 100) ∷ (entry, some 200) ∷ []

no_heads : (i a : ℕ) → no_results.owned i ≡ some a → no_results.memory a ≢ none
no_heads i a h = absurd (cc)

getaddrinfo_sync-Answers_example : Answers no_results no_heads 2 (getaddrinfo_sync 0 two no_results)
getaddrinfo_sync-Answers_example =
    getaddrinfo_sync-Answers no_results no_heads 0 two (refl, (refl, (refl, (refl, tt))))

abbrev result_of : Option Reply → Option ℕ
result_of none = none
result_of (some r) = r.res

two_entries : result_of (getaddrinfo_sync 0 two no_results) ≡ some 100
unfolding getaddrinfo_sync build append_node finish_list finished remember lwip_freeaddrinfo
two_entries = refl

no_memory :
    result_of (getaddrinfo_sync 0 ((entry, some 100) ∷ (entry, none) ∷ []) no_results) ≡ none
unfolding getaddrinfo_sync build append_node finish_list give_up gave_up free_list next_node
    lwip_freeaddrinfo
no_memory = refl
