-- ===== src/Lib.antt =====
-- The core of the sync engine of zmessaging-cocoa: which state a session is in, what it asks the
-- backend for in that state, the small syncs that hand out one request at a time, the dispatch of
-- update events, how a user logs in, registers and changes the account, and who is typing.
--
-- Parts and files
-- - States is the sync state machine, Source/Synchronization/Sync States/. States.World is what
--   the states see of the rest of the session, as a record of observations and reactions over a
--   type of outside states: the phases of the authentication and the client registration, the
--   transcoders of the object strategy directory, the clock and the application state.
--   States.Machine is the state of ZMSyncStateMachine and of its twelve ZM...State objects, with
--   what they do when they are left; States.Transitions is didEnterState and goToState:;
--   States.Requests is nextRequest of every state and of the machine; States.Events is everything
--   that reaches the machine from outside, with dataDidChange in States.Events.Advance, the
--   application's changes of side in States.Events.Sides, and the fetch, the task and their timers
--   in States.Events.Timers. A machine records every message that it sends in its log, newest
--   first.
-- - The theorems on it: States.Landing (where goToState: ends), States.Invariant (timers,
--   handlers, background calls), States.Handlers (completion handlers), States.Loop (the loop of
--   nextRequest), States.Diagram (the transitions), States.Processing (how event processing is
--   entered), States.Login (the login request), States.Gate (the login states). States.Frame has
--   what they share; States.Interface has the interfaces of ZMSyncState.h and
--   ZMStateMachineDelegate.h.
-- - Syncs has the small syncs: Syncs.Single is Source/Synchronization/ZMSingleRequestSync.m,
--   Syncs.RemoteIdentifiers ZMRemoteIdentifierObjectSync.m beside it. Syncs.Timed is
--   ZMTimedSingleRequestSync.m, Syncs.EventsBuffer ZMUpdateEventsBuffer.m, Syncs.Dependents
--   ZMDependentObjects.m, Syncs.InsertedSet ZMLocallyInsertedObjectSet.m and Syncs.OperationSet
--   ZMSyncOperationSet.m, all beside it; Syncs.Paginator is
--   Source/Synchronization/Transcoders/Helper/ZMSimpleListRequestPaginator.m, a client of the
--   single sync.
-- - Syncs.Modified is ZMLocallyModifiedObjectSyncStatus.m in Source/Synchronization/, and
--   Syncs.Modified.Set ZMLocallyModifiedObjectSet.m. Syncs.Downstream is ZMDownstreamObjectSync.m,
--   a client of Syncs.OperationSet, and Syncs.Downstream.Loop and Pending its theorems;
--   Syncs.Whitelist is ZMDownstreamObjectSyncWithWhitelist.m around it. Syncs.Upstream is
--   ZMUpstreamTranscoder.h and ZMUpstreamRequest.m, with ZMUpstreamInsertedObjectSync.m in
--   Syncs.Upstream.Inserted, over Syncs.InsertedSet, and ZMUpstreamModifiedObjectSync.m in
--   Syncs.Upstream.Modified, over Syncs.Modified.Set; both keep objects that wait for others in
--   Syncs.Dependents.
-- - Syncs.Contracts has the interfaces that the headers beside these files declare, one record of
--   operations each, for some with the laws that clients rely on, which the implementations'
--   theorems fill.
-- - Dispatch is how update events and requests pass between the machine, the transcoders and the
--   request strategies: Dispatch.Generators is Source/Synchronization/ZMRequestGenerator.h and .m,
--   Dispatch.Strategy is the event handling of ZMSyncStrategy.m with the protocols of
--   Transcoders/ZMObjectSyncStrategy.h, Dispatch.Routing its theorems, and Dispatch.Calls the
--   interface of ZMSyncStrategy.h with the state machine inside.
-- - Session is Source/UserSession/: Session.Codes the error codes and notification types (also
--   Source/Public/NSError+ZMUserSession.h), Session.Errors NSError+ZMUserSession.m,
--   Session.Notifications the notifications that are posted, Session.Credentials ZMCredentials.m,
--   Session.Authentication ZMAuthenticationStatus.m with its messages in
--   Session.Authentication.Steps and its theorems in Phases and Pending, Session.Profile
--   ZMUserProfileUpdateStatus.m, Session.Clients ZMClientRegistrationStatus.m, which uses both as
--   credential providers, Session.Accounts the calls of ZMUserSession+Authentication.m and
--   ZMUserSession+Registration.m, and Session.Observers what they observe.
-- - Typing is Source/Data Model/: Typing.Timeouts ZMTypingUsersTimeout.m and ZMTypingUsers.m,
--   Typing.Machine ZMTyping.m, Typing.Laws their theorems, and Typing.Transcoder
--   Source/Synchronization/Transcoders/ZMTypingTranscoder.m, which tells the machine of Typing of
--   update events. Push is Source/Data Model/Push Token/ZMPushToken.m.
-- - HotFix is Source/Synchronization/ZMHotFix.m and ZMHotFixDirectory.m, with ZMVersion in
--   HotFix.Versions; Conversations is ZMIncompleteConversationsCache.m beside them, and Messages
--   Transcoders/Helper/ZMMessageExpirationTimer.m. Images is
--   ImagePreprocessing/ZMImagePreprocessingTracker.m there. Search is
--   Source/UserSession/Search/ZMUserIDsForSearchDirectoryTable.m, and Search.Request
--   ZMSearchRequest.m beside it. Calling is Source/Calling/ZMGSMCallHandler.m. The theorems on
--   each are in its Laws, those on Search.Request with it.
-- - Utility.Tracing is Source/Utility/ZMTracing.h: each inline function as the probes that it
--   fires, and the codes that the comments document.
-- - Base has the names, tests and list functions that all share; Tests has concrete worlds and
--   runs.
--
-- How the states meet the rest: a state asks a transcoder (World.ask), which answers a request or
-- none and changes outside; a message to anything outside is a Command, to which the world reacts
-- (World.react). Responses come back as events that name the completion handler that the state
-- added. A timer is its number; numbers are never used twice.
--
-- Bounds and fuel
-- - goToState: calls itself when entering a state leads on to another. The nested calls are
--   bounded by 3, the length of the longest chain of states (States.Transitions.depth); no entry
--   goes on beyond it.
-- - The loop of nextRequest gets 3 rounds, though it goes round at most twice: a state that it
--   enters does not lead on when it is asked.
-- - The loop of the downstream sync's nextRequest gets one round more than the objects that are
--   pending, of which each round but the last takes one out
--   (Syncs.Downstream.Loop.next_request_ends); that of the upstream inserted sync one more than
--   the objects in its set (Syncs.Upstream.Inserted.Laws.next_insert-Answers).
-- - Texts and addresses of objects are numbers in Session; what the phone number validator makes
--   of a number is an argument. Times are milliseconds; intervals of seconds in the source. The
--   counter of ZMSingleRequestSync is an int, a 32-bit pattern here; the hash of a search request
--   an unsigned integer of 64 bits. The data of an archive are a number, and what the platform
--   reads from them an argument.
--
-- Not modelled: tearDown of the machine, descriptions, logging and debug information;
-- stateEnterDate, which is only logged; the queues on which blocks are deferred, and calls back
-- into the machine from within a handler; weak references that are gone. Transcoders, Core Data,
-- the transport and the audio and video engine are libraries or other parts.
pub mod Base
pub mod States
pub mod Syncs
pub mod Dispatch
pub mod Utility
pub mod Session
pub mod HotFix
pub mod Search
pub mod Messages
pub mod Conversations
pub mod Calling
pub mod Push
pub mod Images
pub mod Typing
mod Tests
