-- ===== src/Lib.antt =====
-- The TypeScript clients of Project PN, a vocabulary trainer: what the app keeps and decides
-- between the screens and the gateway. Each part has a module that models it and modules beside it
-- that prove its theorems; Client/State.antt, Item/Data.antt, Session/Cards.antt, Screen/State.antt and
-- SenseFlow/State.antt hold the data of the module above them, which passes their names on.
--
--   Api       The API client. Client.antt is its state, its headers and the fallback over base URLs,
--             and Requests.antt its requests, the refresh of a session and the answer to a 401:
--             packages/api/src/client.ts and auth.ts. `fetchWithFallback` is fetch_with_fallback with
--             its loop try_urls, `handleUnauthorized` is handle_unauthorized, `attemptRefresh` is
--             attempt_refresh, and `getJson` … `postNoContent` keep their names. SharedRefresh.antt is
--             the one refresh that overlapping requests share (`refreshPromise`).
--   Practice  A practice session: Item.antt has the due items and what a grade or a batch of server
--             updates makes of them, Queue.antt the order of the cards, Progress.antt the progress
--             bar: frontend/src/features/practice/practiceItemState.ts and frontend/src/types/index.ts.
--             Session.antt is the state of the screen, its loads and its updates, and Flush.antt the
--             grade of a card and the sending of the attempts, which Delivery.antt is about:
--             frontend/src/features/practice/PracticeScreen.tsx.
--             Finish.antt is the reveal of an answer and the end of a session.
--   Words     The saved words: DeckCounts.antt (frontend/src/features/words/deckCounts.ts),
--             LearningItems.antt (frontend/src/features/words/useLearningItems.ts), and Screen.antt
--             with Screen/Filtering.antt, the handlers, counts and filter of the screen that uses both
--             (frontend/src/features/words/MyWordsScreen.tsx). Meanings.antt chooses the gloss that is
--             shown for a word (frontend/src/utils/meanings.ts).
--   Add       Adding words: Senses.antt (frontend/src/utils/senses.ts), Errors.antt
--             (frontend/src/utils/addErrors.ts), Queue.antt (frontend/src/hooks/useAddQueue.tsx) and
--             SenseFlow.antt (frontend/src/hooks/useSenseFlow.ts). The errors that are classified are
--             those that the API client throws. Runs.antt has the steps of the queue, Drain.antt the
--             rounds of its worker, Stranded.antt a word that it misses. CaptureHistory.antt is the history of captured words
--             (frontend/src/storage/captureHistory.ts), in a store as that of a session.
--             Passage.antt is a passage whose words are tapped
--             (frontend/src/components/TappablePassage.tsx), Capture.antt what is selected in it and
--             added to the queue (frontend/src/features/add/CaptureSection.tsx). AnkiImport.antt is
--             the import of cards (frontend/src/features/import/useAnkiImport.ts).
--   Auth      The signed-in session: Storage.antt (frontend/src/api/sessionStorage.ts and
--             browser-extension/src/auth/storage.ts), Expiry.antt
--             (frontend/src/utils/sessionRenewal.ts) and Renewal.antt
--             (frontend/src/hooks/useSessionRenewal.ts).
--   App       The app around the screens: Session.antt is who is signed in and which screen is shown
--             (AppContent of frontend/App.tsx, handleSignIn of
--             frontend/src/screens/CentralAuthScreen.tsx and logout of frontend/src/api/auth.ts).
--             Store.antt is the storage that it awaits, whose calls may reject.
--             Links.antt reads a session from a link (frontend/src/utils/authLaunch.ts).
--             Settings.antt has the settings of frontend/src/features/profile/ProfileScreen.tsx, and
--             Settings/Requests.antt their requests, whose answers come in any order.
--   Analytics What the client reports: Event.antt (packages/api/src/analytics.ts) and Batches.antt
--             (frontend/src/analytics/analytics.ts).
--   Prelude   Boolean tests, lists over the native numbers, and JavaScript's sets and maps as lists.
--
-- Numbers that the source uses as counts, indices and statuses are natural numbers; floating-point
-- scores are natural numbers in a fixed small unit. Math.random is a drawing function with its state,
-- and the rounding of a percentage a parameter. The platform of the API client (fetch, JSON, the
-- callbacks of the configuration) is the record `Platform` over a world that every call changes, so a
-- theorem holds for every behaviour of the network. Code that waits is cut at its `await`s: the list
-- of words and the add queue are step relations in which answers come in any order, and what a
-- closure captured is an argument of the step. The loops are recursions over the list that they walk,
-- but for that of the interleaving, interleave_rounds, which has fuel for one more pass than there are
-- items: each pass but the last places one. The rounds of the add queue's worker, work_for, have two
-- per waiting job, one for each answer, with a render before each. When React runs the updater of
-- the queue is a part of its state: at once, or with the next render if an update is pending. The
-- one nested call, the refresh during a request, is itself not refreshed. The wait at the end of a
-- session is a loop on the answers that come.
--
-- A session in a link is read from the list of the link's characters. The settings and the import of
-- cards are event-driven: an event carries an answer, and settings keep the list of their requests.
--
-- Not modelled: the Go services (backend, central-auth), rendering, styles, navigation and texts,
-- the messages of the browser extension, and the screens of decks, of the home page and of languages
-- with the sheet that changes a meaning, which load and show what the API client gives.
pub mod Prelude
pub mod Practice
pub mod Api
pub mod Words
pub mod Add
pub mod Auth
pub mod Analytics
pub mod App
