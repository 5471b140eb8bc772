-- ===== src/Lib.antt =====
-- Service consumers of the 5G core network: the library for the MB-SMF (lib/mb-smf-service-consumer)
-- that allocates TMGIs, keeps MBS Sessions at an MB-SMF in step with the application's, and tells
-- the application of results, and its neighbours for the BSF and the PCF. What the library calls of
-- Open5GS is not part of the repository: it enters as parameters with the behaviour it relies on.
--
-- The parts, with the functions that their definitions translate (a definition has the function's
-- name without its leading `_` and without the part's prefix):
-- - Common: shared names, Boolean tests, byte strings (`char *` as a list of numbers), decimal and
--   hexadecimal text (lib/mb-smf-service-consumer/utils.c), and `Run`, whose `fault` is a read
--   through NULL or of an object that has been freed.
-- - JsonPatch: lib/mb-smf-service-consumer/json-patch.c. JsonPatch/Rfc6902 is an independent
--   reading of a patch document on the member of a session that a patch list is about, and
--   JsonPatch/Elements what an item does to an element of an array.
-- - ListPatch: the patches between two lists, the scheme that tai.c, ncgi.c and ncgi-tai.c of the
--   same directory share; Areas: these files and mbs-service-area.c, the TAIs and the cells of the service areas;
--   JsonPatch/Below says which items of a patch act on which member.
-- - MbsFsaId: mbs-fsa-id.c of the same directory; a pointer is an address, a store says what stands
--   there, and NULL is `none`. MbsFsaId/Copy has a heap that says which objects are live.
-- - SbiObject: ref_count_sbi_object.h; a count per address.
-- - Callback: the result codes and the calls of the application's callbacks.
-- - Tmgi: tmgi.c and priv_tmgi.h (the record and its setters in Tmgi, requests in Tmgi/Request) and
--   nmbsmf-tmgi-handle.c (Tmgi/Response). A TMGI is a record with its address; the context is the
--   list of them in the order of the linked list.
-- - MbsSession: mbs-session.c with the types beside it; Callbacks (the three callback slots of a
--   session), Public (the copy and the comparison of the public part), Push (what a push sends, and
--   nmbsmf-mbs-session-handle.c for the answer to an update) and Update (the patches of an update,
--   put together from those of the members).
--   MbsSession/Subscriptions has the new, active and deleted subscriptions of a session
--   (mbs-session.c, the sending of mbs-status-subscription.c, and the answer to a creation), and
--   Status the fields of one with its setters and its text (mbs-status-subscription.c).
-- - Bsf: lib/bsf-service-consumer, from pcf-bind.c to nbsf-process.c: the cache of PCF bindings with
--   the pointers that it keeps as its keys, the sessions that wait for an answer, the answers and the
--   timeouts. The time at which an answer expires, and libogscore's hash function, are parameters.
-- - ToolOptions, TmgiTool: tools/c/tmgi-tool. The state machine with the event loop in TmgiTool, the
--   command line in TmgiTool/Options and the configuration in TmgiTool/Config.
-- - Pcf: lib/pcf-service-consumer. Pcf/Events has the masks of events (pcf-evsubsc.c, utils.c),
--   Pcf/Notifications the callbacks for them (pcf-client.c), Pcf/Merge the merge of a subscription
--   (pcf-client-sess.c), Pcf/Context the lists of PCF sessions and app sessions, Pcf/Client the
--   answers of the PCF (pcf-handler.c, npcf-process.c) and Pcf/Server its notifications.
-- Samples and the modules named Examples hold test data and runs at concrete inputs.
--
-- The parts interact as follows. A push compares the session with the copy that the MB-SMF accepted
-- last, made by the same copy that the answer to an update makes; the patches of an update are made
-- per member and appended below the member's path. A request for TMGIs selects from the context and
-- replaces the SBI object of each, and its response finds them again by service id and PLMN.
--
-- Bounds and fuel: recursion is structural, but for the printing of numbers, whose fuel is the
-- number itself, and the event loop of the TMGI tool, whose fuel is given by the theorem on it, and the
-- merge of a subscription of the PCF library, which need not end; each
-- theorem on a printed number covers every number. Reference counts and list indices do not reach
-- 2 ^ 64 and 2 ^ 31.
--
-- Not modelled: the geographic areas and civic addresses (geographic-area.c and the like), the
-- service information, the building of requests, the reports on subscriptions, the configuration of
-- the BSF library, the time at which its answers expire (utils.c), the requests to the PCF, and the
-- tools but for the one for TMGIs. Logging, tests and the OpenAPI types that a generator writes are
-- left out. The freeing of memory is modelled where a theorem depends on it.
pub mod Areas
pub mod Bsf
pub mod Callback
pub mod Common
pub mod JsonPatch
pub mod ListPatch
pub mod MbsFsaId
pub mod MbsSession
pub mod Pcf
pub mod Samples
pub mod SbiObject
pub mod Tmgi
pub mod TmgiTool
pub mod ToolOptions
