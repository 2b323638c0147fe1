-- ===== src/Retention/Tests.antt =====
-- notifications/retention.py at concrete rows.
use push_it_server.Prelude.{refl, ◌*◌, In, inl, [], ◌∷◌, contains}
use push_it_server.Store.{Store}
use push_it_server.Samples.{store_one, bell, day}
use push_it_server.Targets.{new_delivery}
use push_it_server.Retention.{RetentionSettings, purge_expired_personal_data, is_underway}
use push_it_server.Retention.Laws.{AreReferential, purge_expired_personal_data-AreReferential}

abbrev settings : RetentionSettings
settings = record { notification_days = 90; invalid_device_days = 30 }

abbrev old_store : Store
old_store = record store_one { deliveries = new_delivery 1 7 1 ∷ [] }

old_store-AreReferential : AreReferential old_store
unfolding contains
old_store-AreReferential = record {
  notifications = (refl, tt);
  devices = (refl, tt);
  links = (refl, (refl, tt));
}

purge_expired_personal_data-AreReferential_example :
    In bell (purge_expired_personal_data settings (400 * day) old_store).0.notifications
    × AreReferential (purge_expired_personal_data settings (400 * day) old_store).0
unfolding is_underway
purge_expired_personal_data-AreReferential_example =
    purge_expired_personal_data-AreReferential settings (400 * day) old_store bell
      old_store-AreReferential (inl refl) refl
