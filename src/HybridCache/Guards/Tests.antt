-- ===== src/HybridCache/Guards/Tests.antt =====
-- Tests of the key revisions, and examples of their theorems: a read of "a" is under way when a write
-- of "a" begins, beside a read of "b".
use lazy_layers.Prelude.{◌≡◌, refl, true, false, none, List, [], ◌∷◌, codes, text_eq, ◌&&◌, not}
use lazy_layers.HybridCache.{text_key, key_eq}
use lazy_layers.HybridCache.Core.{observe_key, is_current}
use lazy_layers.HybridCache.Guards.{Event, observes, releases, step, pass_all}
use lazy_layers.HybridCache.Guards.Obsolete.{open_core, superseded, supersedes, is_current-pass_all}
use lazy_layers.HybridCache.Guards.Accounts.{Settles, pass_all-Settles}

abbrev other_reads : List Event
other_reads = observes (text_key (codes "b")) false ∷ releases 0 ∷ []

abbrev a_write : List Event
a_write = observes (text_key (codes "a")) true ∷ releases 0 ∷ []

superseded-a_write :
    superseded (text_key (codes "a")) a_write (open_core false true none, []) ≡ true
unfolding superseded supersedes key_eq text_eq step
superseded-a_write = refl

superseded-other_reads :
    superseded (text_key (codes "a")) other_reads (open_core false true none, []) ≡ false
unfolding superseded supersedes key_eq text_eq step
superseded-other_reads = refl

is_current-pass_all_example :
    let (c, gs) = pass_all other_reads (open_core false true none, []) in
    let (c', g) = observe_key (text_key (codes "a")) false c in
    is_current false g (pass_all a_write (c', gs)).0
    ≡ (is_current false g c' && not (superseded (text_key (codes "a")) a_write (c', gs)))
is_current-pass_all_example =
    is_current-pass_all false true none other_reads a_write (text_key (codes "a")) false false

pass_all-Settles_example : Settles (pass_all a_write (open_core false true none, []))
pass_all-Settles_example = pass_all-Settles false true none a_write
