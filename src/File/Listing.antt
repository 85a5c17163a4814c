-- ===== src/File/Listing.antt =====
-- Directory lists of src/lfilef.c (`DirectoryList`): the object that a listing creates, and when the
-- request of libuv in it is cleaned up, which libuv wants for each request that is finished, once.
use coutil.Prelude.{
  ◌≡◌, refl, ap, Bool, true, false, ◌&&◌, ◌||◌, not, Option, none, some, List, [], ◌∷◌,
  if◌then◌else◌,
}

-- `filereq.result`: memory that nothing was written to, a number that is not negative, or one that is.
pub data Slot : Type 0 where
  unset at_least_0 negative : Slot

pub record DirectoryList : Type 0 where
  pub result : Slot
  pub held : Bool  -- libuv has finished the request, and it is not cleaned up

abbrev pub cleaned : DirectoryList
cleaned = record { result = negative; held = false }

-- `dirinfo_gc`, also `__close`; `none` is a decision on memory that nothing was written to, or a
-- request that is cleaned up again.
unfoldable pub dirinfo_gc : DirectoryList → Option DirectoryList
dirinfo_gc d = elim d.result [
  | unset ↦ none
  | at_least_0 ↦ if d.held then some cleaned else none
  | negative ↦ some d
]

-- `dirinfo_call`: `found` is whether libuv has a next entry. The first component is `none` for the
-- error of its argument, else whether it returns an entry.
unfoldable pub dirinfo_call : (found : Bool) → DirectoryList → Option (Option Bool × DirectoryList)
dirinfo_call found d = elim d.result [
  | unset ↦ none
  | at_least_0 ↦
      if found then some (some true, d) else if d.held then some (some false, cleaned) else none
  | negative ↦ some (none, d)
]

-- The new object.
abbrev pub new : DirectoryList
new = record { result = unset; held = false }

-- A request that libuv has finished: `scanned` is whether it could list the directory.
abbrev pub finished : (scanned : Bool) → DirectoryList
finished scanned = record { result = if scanned then at_least_0 else negative; held = true }

-- `returnlistdir`: whether it returns the list, else an error.
unfoldable pub returnlistdir : DirectoryList → Bool
returnlistdir d = elim d.result [ unset ↦ false | at_least_0 ↦ true | negative ↦ false ]

-- `uv_onlistdir`, with the results if `waits`, a coroutine that still waits.
unfoldable pub onlistdir : (waits : Bool) → DirectoryList → Bool × DirectoryList
unfolding returnlistdir
onlistdir waits d = if waits then (returnlistdir d, d) else (false, cleaned)

-- `system_listdir`: whether it returns the list, and the object. `yieldable` is what `checkyieldable`
-- tests in `lcuT_resetudreqk`, and libuv accepts the request.
unfoldable pub system_listdir : (noyield yieldable scanned waits : Bool) → Bool × DirectoryList
unfolding returnlistdir onlistdir
system_listdir noyield yieldable scanned waits =
    if noyield
    then (if scanned
        then (returnlistdir (finished scanned), finished scanned)
        else (false, finished scanned))
    else if yieldable
    then onlistdir waits (finished scanned)
    else (false, new)

-- Calls of the iterator, as long as they do not fail.
unfoldable pub calls : List Bool → DirectoryList → Option DirectoryList
unfolding dirinfo_call
calls [] d = some d
calls (found ∷ rest) d = elim (dirinfo_call found d) [ none ↦ none | some r ↦ calls rest r.1 ]

abbrev pub collected : Option DirectoryList → Option DirectoryList
collected none = none
collected (some d) = dirinfo_gc d

-- The results of the collection of a list.
abbrev pub end : (noyield yieldable scanned waits : Bool) → Option DirectoryList
end noyield yieldable scanned waits =
    if noyield || yieldable
    then some (record { result = negative; held = not scanned && (noyield || waits) })
    else none

calls-cleaned : (founds : List Bool) → calls founds cleaned ≡ some cleaned
unfolding calls
calls-cleaned [] = refl
calls-cleaned (found ∷ rest) = calls-cleaned rest

calls-failed : (founds : List Bool) → calls founds (finished false) ≡ some (finished false)
unfolding calls
calls-failed [] = refl
calls-failed (found ∷ rest) = calls-failed rest

calls-collected : (founds : List Bool) → collected (calls founds (finished true)) ≡ some cleaned
unfolding calls dirinfo_gc
calls-collected [] = refl
calls-collected (true ∷ rest) = calls-collected rest
calls-collected (false ∷ rest) = ap collected (calls-cleaned rest)

calls-new : (founds : List Bool) → collected (calls founds new) ≡ none
unfolding calls dirinfo_call dirinfo_gc
calls-new [] = refl
calls-new (found ∷ rest) = refl

-- However often the iterator of a listing is called, its object is collected without harm, and behind
-- that the request is cleaned up, exactly once, unless the listing fails: a request that has failed,
-- without yielding or with a coroutine that waits, is never cleaned up; and where the call may not
-- yield, the collector decides on memory that nothing was written to.
pub system_listdir-end :
    (noyield yieldable scanned waits : Bool) (founds : List Bool)
    → collected (calls founds (system_listdir noyield yieldable scanned waits).1)
      ≡ end noyield yieldable scanned waits
unfolding system_listdir onlistdir dirinfo_gc
system_listdir-end true yieldable true waits founds = calls-collected founds
system_listdir-end true yieldable false waits founds = ap collected (calls-failed founds)
system_listdir-end false true true true founds = calls-collected founds
system_listdir-end false true true false founds = ap collected (calls-cleaned founds)
system_listdir-end false true false true founds = ap collected (calls-failed founds)
system_listdir-end false true false false founds = ap collected (calls-cleaned founds)
system_listdir-end false false scanned waits founds = calls-new founds
