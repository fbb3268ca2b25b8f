-- ===== src/Runtime/NotifyTests.antt =====
-- A notice to a conversation of the in-memory store.
use haikit.Prelude.{◌≡◌, refl, true, none, lit, ok, ◌>>=◌, get, ◌=t=◌}
use haikit.Core.Json.{null}
use haikit.Store.Copy.{copy_notice}
use haikit.Store.Memory.{put_notice}
use haikit.Runtime.Fixtures.{local_hai, clicked}
use haikit.Runtime.Notify.{Notice, told, notify}
use haikit.Runtime.Notified.{Notified, notify-Notified}

abbrev arrival : Notice
arrival = record {
  name = lit "arrival";
  version = 1;
  wake = true;
  parse = λ v. ok v;
  model = λ v. ok (told (lit "It arrived."));
  registered = true;
}

arrival_stored : (notify local_hai (lit "c") arrival null none clicked.world).0 ≡ ok 1
unfolding notify ◌>>=◌ put_notice get ◌=t=◌ copy_notice
arrival_stored = refl

notify-Notified_example :
    Notified local_hai
      (lit "c")
      arrival
      null
      none
      (notify local_hai (lit "c") arrival null none clicked.world).0
      (notify local_hai (lit "c") arrival null none clicked.world).1
notify-Notified_example = notify-Notified local_hai (lit "c") arrival null none clicked.world
