-- ===== src/App/Initial.antt =====
-- The memory of the configuration of mod_siprec.c before anything is loaded.
use mod_siprec.Base.{[], arith, lookup, refl}
use mod_siprec.App.{no_servers}
use mod_siprec.Config.Pools.Loading.{Holds}

pub no_servers-Holds : Holds no_servers []
unfolding lookup
no_servers-Holds = record {
  hash = [];
  chains = λ name. [];
  there = refl;
  owned = record {
    distinct = tt;
    linked = λ name. refl;
    rising = λ name. omega arith;
    owned = λ p c there. absurd (cc);
  };
  same = λ name. refl;
}
