-- ===== src/Rest/Tests.antt =====
-- Concrete calls of the clients of packages/js/client/src/rest.
use Prim.Native.String
use Prim.Native.String.{[], ◌∷◌}
use package.text.Mathlib.TextLemmas.{cons-append, append_assoc}
use bfw_engine.Common.{
  String, ℕ, arith, code, Bool, true, false, ◌&&◌, eqb, none, some, if◌then◌else◌, ◌≡◌, refl,
}
use bfw_engine.Graphql.Values.{text}
use bfw_engine.Http.Transport.{Fetch, Request, returned}
use bfw_engine.Rest.Processes
use bfw_engine.Rest.Processes.Paths.{IsProcessPath, of_process, of_version, calls-IsProcessPath}

-- a server that answers with the address that it was asked for
abbrev echo : Fetch
echo sent = some (record { status = 200; json = some (text sent.url); content = sent.url })

asks_for_versions :
    Processes.get_versions echo "http://engine" "token" "order/ä?" true
    ≡ returned (text "http://engine/processes/order%2F%C3%A4%3F/versions?includeXml=true")
unfolding Processes.get_versions
asks_for_versions = refl

abbrev starts_with : (start s : String) → Bool
starts_with [] s = true
starts_with (c ∷ start) [] = false
starts_with (c ∷ start) (d ∷ s) = eqb (code c) (code d) && starts_with start s

-- a network that answers on the paths of processes alone
abbrev processes_only : Fetch
processes_only sent = if starts_with "http://engine/processes/" sent.url then echo sent else none

eqb_refl : (n : ℕ) → eqb n n ≡ true
eqb_refl n = ground arith

starts_with-append : (a s : String) → starts_with a (String.◌++◌ a s) ≡ true
starts_with-append [] s = refl
starts_with-append (c ∷ a) s =
    rw (cons-append c a s) (rw (eqb_refl (code c)) (starts_with-append a s))

on_processes :
    (s : String)
    → starts_with "http://engine/processes/"
        (String.◌++◌ "http://engine" (String.◌++◌ "/processes/" s))
      ≡ true
on_processes s =
    rw (← append_assoc "http://engine" "/processes/" s)
      (starts_with-append "http://engine/processes/" s)

processes_only-echo :
    (sent : Request) (path : String)
    → IsProcessPath path
    → sent.url ≡ String.◌++◌ "http://engine" path
    → processes_only sent ≡ echo sent
processes_only-echo sent path (of_process segment suffix h k) e =
    rw (e, on_processes (String.◌++◌ segment suffix)) refl
processes_only-echo sent path (of_version segment version h k) e =
    rw (e, on_processes (String.◌++◌ segment (String.◌++◌ "/versions/" version))) refl

calls-IsProcessPath_example :
    Processes.get processes_only "http://engine" "token" "../a?b" true
    ≡ Processes.get echo "http://engine" "token" "../a?b" true
calls-IsProcessPath_example =
    (calls-IsProcessPath processes_only echo "http://engine" "token" processes_only-echo "../a?b"
      "1" true none).0
