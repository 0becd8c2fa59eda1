-- ===== src/Telemetry/Tests.antt =====
-- subsys/telemetry/telemetry.c: runs and instances of the theorems.
use nturt_zephyr_common.Base.{
  ◌>>=◌, ℕ, ◌≡◌, ◌≢◌, ◌⊎◌, refl, true, false, some, List, [], ◌∷◌, get_elem?, set,
}
use nturt_zephyr_common.Base.HashMap.Assoc.{assoc, find, put}
use nturt_zephyr_common.Msg.Kernel.{View, view_kernel}
use nturt_zephyr_common.Msg.Aggregation.{
  AggConfig, fully_updated, is_full, cold_start, early_publish, agg_update,
}
use nturt_zephyr_common.Telemetry.{
  Normal, normal, alias, TmGroupData, TmGroup, ok, resolve, normal_at, store, mark,
  tm_data_notify_lock, Ctx, data_get, target, value_at, tm_data_get, update_at, tm_data_update,
  tm_group_copy, entered, enter_all, link, link_datas, link_groups, init,
}
use nturt_zephyr_common.Telemetry.Values.{tm_data_get-tm_data_update}
use nturt_zephyr_common.Telemetry.Groups.{
  places, notified, tm_data_update-notifies, IsCopy, tm_group_copy-IsCopy,
}
use nturt_zephyr_common.Telemetry.Links.{init-places_of, places_of}
use nturt_zephyr_common.Telemetry.Sections.{groups_at}

abbrev config : AggConfig
config = record {
  always_publish = false;
  member_flags = 0 ∷ 0 ∷ [];
  period = 10;
  min_separation = 5;
  watermark = 2;
}

abbrev idle : View
idle = record { period = false; early = false; scheduled = false; running = false }

-- Data of two bytes with the address 5, an alias of them with the address 6, and one byte with the
-- address 7; a group publishes the alias and the byte.
abbrev blank : Ctx assoc view_kernel
blank = record {
  section =
      record { addr = 5; type = normal (record { size = 2; groups = []; buffer = 0 ∷ 0 ∷ [] }) }
      ∷ record { addr = 6; type = alias 0 }
      ∷ record { addr = 7; type = normal (record { size = 1; groups = []; buffer = 9 ∷ [] }) }
      ∷ [];
  groups =
      record {
        config = config;
        agg = record { kernel = idle; updated = false ∷ false ∷ [] };
        datas =
            record { datum = 1; pub_data = 0 ∷ 0 ∷ [] }
            ∷ record { datum = 2; pub_data = 0 ∷ [] }
            ∷ [];
      }
      ∷ [];
  data_map = [];
}

abbrev started : Ctx assoc view_kernel
started = record blank {
  section =
      record {
        addr = 5;
        type = normal (record { size = 2; groups = (0, 0) ∷ []; buffer = 0 ∷ 0 ∷ [] });
      }
      ∷ record { addr = 6; type = alias 0 }
      ∷ record {
        addr = 7;
        type = normal (record { size = 1; groups = (0, 1) ∷ []; buffer = 9 ∷ [] });
      }
      ∷ [];
  data_map = (7, 2) ∷ (6, 1) ∷ (5, 0) ∷ [];
}

init_run : init assoc view_kernel blank ≡ ok started
unfolding init enter_all entered put find store normal_at link_groups link_datas link resolve
init_run = refl

abbrev group : TmGroup View
group = record {
  config = config;
  agg = record { kernel = idle; updated = false ∷ false ∷ [] };
  datas =
      record { datum = 1; pub_data = 0 ∷ 0 ∷ [] } ∷ record { datum = 2; pub_data = 0 ∷ [] } ∷ [];
}

-- An update of the alias writes the data, and starts the work of the group.
abbrev written : Ctx assoc view_kernel
written = record started {
  section =
      record {
        addr = 5;
        type = normal (record { size = 2; groups = (0, 0) ∷ []; buffer = 3 ∷ 4 ∷ [] });
      }
      ∷ record { addr = 6; type = alias 0 }
      ∷ record {
        addr = 7;
        type = normal (record { size = 1; groups = (0, 1) ∷ []; buffer = 9 ∷ [] });
      }
      ∷ [];
  groups =
      record group {
        agg = record {
          kernel = record { period = false; early = false; scheduled = true; running = false };
          updated = true ∷ false ∷ [];
        };
      }
      ∷ [];
}

update_run : tm_data_update assoc view_kernel started 6 (3 ∷ 4 ∷ []) ≡ ok written
unfolding tm_data_update update_at data_get find resolve normal_at store tm_data_notify_lock mark
    agg_update cold_start early_publish is_full fully_updated
update_run = refl

size_run :
    (do q ← target assoc view_kernel started 6; n ← normal_at started.section q; some n.size)
    ≡ some 2
unfolding target data_get find resolve normal_at
size_run = refl

tm_data_get-tm_data_update_example :
    ((target assoc view_kernel started 5 ≡ target assoc view_kernel started 6)
      × (tm_data_get assoc view_kernel written 5 ≡ ok (3 ∷ 4 ∷ [])))
    ⊎ ((target assoc view_kernel started 5 ≢ target assoc view_kernel started 6)
        × (tm_data_get assoc view_kernel written 5 ≡ tm_data_get assoc view_kernel started 5))
tm_data_get-tm_data_update_example =
    tm_data_get-tm_data_update assoc view_kernel started 6 (3 ∷ 4 ∷ []) 5 update_run size_run

tm_data_update-notifies_example :
    (q : ℕ) × (n : Normal) × (target assoc view_kernel started 6 ≡ some q)
    × (normal_at started.section q ≡ some n)
    × (get_elem? written.groups 0 ≡ some (notified view_kernel group (places 0 n.groups)))
tm_data_update-notifies_example =
    tm_data_update-notifies assoc view_kernel started 6 (3 ∷ 4 ∷ []) 0 group update_run refl

has_values :
    (value_at assoc view_kernel written 1 ≡ ok (3 ∷ 4 ∷ []))
    × (value_at assoc view_kernel written 2 ≡ ok (9 ∷ []))
unfolding value_at resolve normal_at
has_values = (refl, refl)

abbrev marked : TmGroup View
marked = record group {
  agg = record {
    kernel = record { period = false; early = false; scheduled = true; running = false };
    updated = true ∷ false ∷ [];
  };
}

tm_group_copy-IsCopy_example :
    (ds : List TmGroupData) × (tm_group_copy assoc view_kernel written 0
      ≡ ok (record written { groups = set written.groups 0 (record marked { datas = ds }) }))
    × IsCopy assoc view_kernel written marked.datas ds
tm_group_copy-IsCopy_example =
    tm_group_copy-IsCopy assoc view_kernel written 0 marked refl
      ((3 ∷ 4 ∷ [], has_values.0), ((9 ∷ [], has_values.1), tt))

init-places_of_example :
    groups_at started.section 0 ≡ some (places_of blank.section 0 blank.groups 0)
init-places_of_example =
    init-places_of assoc view_kernel blank 0
      (record { addr = 5; type = normal (record { size = 2; groups = []; buffer = 0 ∷ 0 ∷ [] }) })
      (record { size = 2; groups = []; buffer = 0 ∷ 0 ∷ [] }) init_run refl refl
