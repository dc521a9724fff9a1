-- ===== src/Lib.antt =====
-- Linktheca's web client (web/src), the single-page application in front of the Linktheca server: a
-- library of saved articles and a radar that watches feeds for topics. This library models its state
-- and its operations, and proves what keeps them right.
--
-- The parts and how they interact. Every feature talks to the server through one client,
-- web/src/shared/api/client.ts, which adds the access token of the session store, renews an expired
-- session once, and turns answers into values or errors. Features keep the answers in a query cache
-- (the package @tanstack/react-query) under keys of their own, patch it before the server answers, and
-- put it back if the server refuses. The pages keep their filters in the address, and guards decide by
-- the session store who sees which page.
--
--   Prelude      names and lemmas that the others share: tests, lists over native numbers.
--   Web          the platform: JSON, requests and replies (Web.Http), actions that read and change
--                the world and return or throw (Web.App), search parameters, numbers as texts, the
--                length of a text (Text), the
--                location that is open (Location), timers, schemas (parseInDev), forms, the paged lists that two
--                features share, what a component renders (View), what it sees of a query (Query,
--                Query.Listing, with shared/ui/ErrorPanel.tsx), the life of a dialog with a form
--                (Dialog, with the two stores of open dialogs), and shared/lib/use-debounced-value.ts
--                (Debounce).
--   Auth         web/src/features/auth. Storage is storage.ts, Store is store.ts (AuthState,
--                setSession, clearSession), Schemas is schemas.ts, Session is api.ts, use-logout.ts
--                and use-bootstrap.tsx, Forms the submit handlers of the two forms, Forms.Pages their
--                validation and what they show.
--   Api          web/src/shared/api. Client is client.ts (performRefresh, refreshSession, apiFetch),
--                Refresh the sharing of one refresh by many callers (refreshOnce), Calls the calls of
--                apiFetch that are on their way together, QueryClient the retry rule of query-client.ts,
--                and Envelope the errors as internal/core/httpx/responses.go writes them.
--   Cache        what the features use of the query cache, as a record of operations and documented
--                laws (Interface), its keys (Keys), and a list of entries that meets the laws (Assoc).
--   Library      web/src/features/library: Types, Schemas, Requests (api.ts), Queries and LibraryKeys
--                (use-library.tsx), Mutations (use-mutations.tsx), Actions (use-item-actions.tsx),
--                Filters and Page (routes/library._index.tsx and FilterBar.tsx), Grid (LibraryGrid.tsx
--                and EmptyState.tsx), Cards (the card, its menu and the parts of the reader), Reader (the
--                marking while scrolling), Reader.Page (routes/library.$id.tsx), Labels (time.ts,
--                image.ts), AddLink (AddLinkDialog.tsx).
--   Radar        web/src/features/radar and web/src/features/admin: Types, Schemas, Requests, Queries,
--                RadarKeys, Mutations, Cards (the cards and headers), Inbox with Inbox.Page
--                (routes/radar._index.tsx and routes/radar.topics._index.tsx), TopicPage
--                (routes/radar.topics.$topicId.tsx), Preview with Preview.Markup and Preview.Asking
--                (TopicPreviewPanel.tsx and useTopicPreviewQuery), Dialogs (the four dialogs with
--                forms), Reader with Reader.Page (MatchReader.tsx), Sources with Sources.Pages and
--                Sources.Deleting (routes/radar.sources.tsx and routes/admin.sources.tsx).
--   Shell        web/src/shared/layout and web/src/App.tsx: the guards ProtectedRoute and AdminRoute,
--                the table of routes (Routes), the way through a sign-in back to a page
--                (Routes.Returning), the sidebar, bar, drawer and settings (Chrome), and the pages that
--                read data which is not there (Offline).
--   Tests        runs on small inputs, and the theorems at inputs that meet their conditions.
--
-- How the code is modelled. An asynchronous function is an action, World -> Result x World: the world
-- has the storage, the session store, the requests sent and what the user was told; a throw keeps what
-- was written before it. The server is any function of the requests sent so far and the new one, so
-- what is said of an action holds for every server. Names are the code's, in snake case. Numbers of the
-- server are natural numbers, except scores, which are decimals; a field that may be absent is an
-- Option. Loops of the code are folds of lists; repeated events are lists of steps. What a component
-- renders is a list of parts in their order: headings, texts, alerts, links, buttons with what a click
-- does and whether they are disabled, fields, checkboxes and images. A render that throws is none. No
-- definition runs on fuel but the digits of a number, where n + 1 rounds are given and are more than n
-- has digits, and the following of redirects, where two rounds are proved to be enough.
--
-- Parameters, for code that is not part of the repository: the server and the validator of answers
-- (Web.Http.Host), schemas, the build's mode and the platform's dates and encodings (Web.Schema), the
-- query cache (Cache.Interface) and its infinite queries (Web.Paging.Interface), what the query
-- package reports of a query (Web.Query.IsResult), the tests of zod for a URL and an email address, the
-- branch that react-router picks for a path (Shell.Routes.Landing, Shell.Routes.Returning), the calendar of date-fns
-- (Library.Labels), the reader of numbers (Radar.Inbox), the order of scores (Radar.Preview), trim and
-- the freshness of the cache (Radar.Preview.Asking), and the writing of decimals, hosts and dates (the
-- records Display of the cards). The dialogs of radix-ui are events: they ask to be closed, and the
-- button that confirms an alert closes it.
--
-- Not modelled: the styles, class names and ARIA attributes, the styled wrappers in web/src/shared/ui,
-- the mounting of the application (web/src/main.tsx), what zod and the query cache do inside, and the
-- server in Go (cmd, internal, migrations), which is a separate program, but for the errors it writes.
-- An action of a feature runs to its end before the next begins; the orders of what happens are those
-- of calls and answers in Api.Calls and Api.Refresh, and of events and answers in Web.Dialog and
-- Radar.Sources.Deleting.
mod Prelude
pub mod Web
pub mod Auth
pub mod Api
pub mod Library
pub mod Cache
pub mod Radar
pub mod Shell
mod Tests
