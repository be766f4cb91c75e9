-- ===== src/Http/Request/Tests.antt =====
-- Bodies and verbs of requests, src/main/c/PageRequest.cpp.
use seasocks.Prelude.{◌≡◌, refl, codes}
use seasocks.Text.Words.{same_bytes}
use seasocks.Http.Request.{verb, delete}

verb_delete : verb (codes "DELETE") ≡ delete
unfolding verb same_bytes
verb_delete = refl
