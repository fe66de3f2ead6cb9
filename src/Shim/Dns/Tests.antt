-- ===== src/Shim/Dns/Tests.antt =====
-- Runs of asynchronous DNS at concrete inputs, and the theorems at inputs that meet their hypotheses.
use ax88179_aroma_driver.Base.{◌≡◌, refl, true, false, Bytes, [], ◌∷◌, arith, replicate}
use ax88179_aroma_driver.Shim.Dns.{
  Table, blank, blank_all, find, find_free, claim, claim_at, start, lookup, new_ticket, begin,
  found, free_slot, reset_all, okay, replied, eai_inprogress,
}
use ax88179_aroma_driver.Shim.Dns.Steps.{Reach, here, next, calls, calls_back}
use ax88179_aroma_driver.Shim.Dns.Names.{Distinct, blank_all-Distinct, Reach-Distinct}
use ax88179_aroma_driver.Shim.Dns.Generations.{reset_all-ignores_old}
use ax88179_aroma_driver.Shim.Dns.Requests.{Answers, getaddrinfo_async-Answers}
use ax88179_aroma_driver.Shim.Dns.Lost.{overtaken, begin-overtaken}

abbrev first_name : Bytes
first_name = b'a' ∷ []

abbrev second_name : Bytes
second_name = b'b' ∷ []

abbrev initial : Table
initial = record { slots = blank_all (replicate 8 blank); counter = 1 }

initial-Distinct : Distinct initial.slots
initial-Distinct = blank_all-Distinct (replicate 8 blank)

-- A request for the first name, in slot 0 with ticket 1, and its callback.
abbrev waiting : Table
waiting = (begin first_name initial).1

abbrev settled : Table
settled = found true 17 waiting

settled-Reach : Reach true initial 2 settled
settled-Reach = next (next here (calls first_name)) (calls_back true 17 (omega arith))

Reach-Distinct_example : Distinct settled.slots
Reach-Distinct_example = Reach-Distinct settled-Reach initial-Distinct

-- A table whose counter is at 5, behind a reset and a call; the callback has ticket 3.
abbrev later : Table
later = record { slots = waiting.slots; counter = 5 }

reset_all-ignores_old_example :
    found true 49 (begin second_name (reset_all later)).1 ≡ (begin second_name (reset_all later)).1
reset_all-ignores_old_example =
    reset_all-ignores_old {r = true} later true 49 (next here (calls second_name)) (omega arith)
      (omega arith) (omega arith)

getaddrinfo_async-Answers_example : Answers first_name 0 initial okay true
unfolding find find_free
getaddrinfo_async-Answers_example =
    getaddrinfo_async-Answers first_name 0 initial okay true (omega arith) (omega arith) refl refl
      refl

waiting-Distinct : Distinct waiting.slots
waiting-Distinct = Reach-Distinct {r = false} (next here (calls first_name)) initial-Distinct

-- The callback for the second name's request, with ticket 2 in slot 0, comes too late.
begin-overtaken_example :
    begin second_name (found true 33 (overtaken second_name 0 1 waiting))
    ≡ (replied eai_inprogress, found true 33 (overtaken second_name 0 1 waiting))
unfolding find find_free free_slot begin lookup start claim claim_at new_ticket
begin-overtaken_example =
    begin-overtaken second_name 0 1 waiting (omega arith) (omega arith) (omega arith)
      waiting-Distinct refl refl (next here (calls_back true 33 (omega arith)))
