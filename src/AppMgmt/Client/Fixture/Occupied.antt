-- ===== src/AppMgmt/Client/Fixture/Occupied.antt =====
-- Which channels the steps of a test of AppMgrPortStart put and take away.
use trusty_app_sample.Common.{
  Bool, List, [], arith, false, not, refl, sym, true, ℤ, ◌&&◌, ◌||◌, ◌∷◌, ◌≡◌,
}
use trusty_app_sample.AppMgmt.Client.{
  ChanIdx, Chans, chan_at, invalid_handle, main_chan, pend_chan, set_chan, wait_chan,
}
use trusty_app_sample.AppMgmt.Client.Fixture.{Step, closing, command, establish, exiting, wait_exit}

-- Which channels a test can be holding.
pub record Occupied : Type 0 where
  pub main : Bool
  pub pend : Bool
  pub waiting : Bool

abbrev pub is_occupied : ChanIdx → Occupied → Bool
is_occupied main_chan o = o.main
is_occupied pend_chan o = o.pend
is_occupied wait_chan o = o.waiting

abbrev pub set_occupied : ChanIdx → Bool → Occupied → Occupied
set_occupied main_chan b o = record o { main = b }
set_occupied pend_chan b o = record o { pend = b }
set_occupied wait_chan b o = record o { waiting = b }

abbrev pub after : Step → Occupied → Occupied
after (establish idx) o = set_occupied idx true o
after (closing idx) o = set_occupied idx false o
after (command idx cmd) o = o
after (exiting idx) o = set_occupied idx false o
after (wait_exit idx) o = set_occupied idx false o

abbrev pub is_free : Step → Occupied → Bool
is_free (establish idx) o = not (is_occupied idx o)
is_free _ o = true

-- Each connection is put where there is none, and none is left at the end.
unfoldable pub is_tidy : List Step → Occupied → Bool
is_tidy [] o = not (o.main || (o.pend || o.waiting))
is_tidy (step ∷ steps) o = is_free step o && is_tidy steps (after step o)

abbrev pub Empty : Occupied → Chans → ChanIdx → Type 0
Empty o cs idx = is_occupied idx o ≡ false → chan_at idx cs ≡ invalid_handle

pub Empty-set :
    (idx : ChanIdx) (b : Bool) (c : ℤ) (o : Occupied) (cs : Chans)
    → (b ≡ false → c ≡ invalid_handle)
    → ((j : ChanIdx) → Empty o cs j)
    → (j : ChanIdx) → Empty (set_occupied idx b o) (set_chan idx c cs) j
Empty-set main_chan b c o cs new old main_chan e = new e
Empty-set main_chan b c o cs new old pend_chan e = old pend_chan e
Empty-set main_chan b c o cs new old wait_chan e = old wait_chan e
Empty-set pend_chan b c o cs new old main_chan e = old main_chan e
Empty-set pend_chan b c o cs new old pend_chan e = new e
Empty-set pend_chan b c o cs new old wait_chan e = old wait_chan e
Empty-set wait_chan b c o cs new old main_chan e = old main_chan e
Empty-set wait_chan b c o cs new old pend_chan e = old pend_chan e
Empty-set wait_chan b c o cs new old wait_chan e = new e

pub true_false : {A : Type 0} → true ≡ false → A
true_false e = cc

pub and_both : (a b : Bool) → a && b ≡ true → (a ≡ true) × (b ≡ true)
and_both true b e = (refl, e)
and_both false b e = true_false (sym e)

pub none_occupied :
    (o : Occupied)
    → not (o.main || (o.pend || o.waiting)) ≡ true
    → (j : ChanIdx) → is_occupied j o ≡ false
none_occupied o e main_chan = ground (arith, e)
none_occupied o e pend_chan = ground (arith, e)
none_occupied o e wait_chan = ground (arith, e)
