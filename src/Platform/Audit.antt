-- ===== src/Platform/Audit.antt =====
-- Recording an audit event never throws, and touches neither the tables nor the cache.
use arcane_backend.Common.{◌≡◌, refl, Option, none, some, List, ok}
use arcane_backend.Platform.{Platform, World, AuditEvent, record_audit}

module _ (p : Platform) where
  pub record_audit_lem :
      (event : AuditEvent) (w : World p)
      → (t : World p) × (record_audit p event w ≡ (ok tt, t)) × (t.db ≡ w.db) × (t.cache ≡ w.cache)
  unfolding record_audit
  record_audit_lem event w = go (p.sink_write event w.audit_log) refl
    where
      go :
          (o : Option (List AuditEvent))
          → p.sink_write event w.audit_log ≡ o
          → (t : World p) × (record_audit p event w ≡ (ok tt, t))
            × (t.db ≡ w.db)
            × (t.cache ≡ w.cache)
      go none e = (w, rw e refl, refl, refl)
      go (some log) e = (record w { audit_log = log }, rw e refl, refl, refl)
