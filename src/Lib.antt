-- ===== src/Lib.antt =====
-- A verification library for parts of the client, a C++ program of an event loop, a network layer, a
-- game clock, the objects of a world and a user interface.
--
-- The parts that are modelled, and their files (paths from the repository's root):
--  Base: numbers, bits, lists and integers that the others share.
--  Time/WowTime: src/util/time/WowTime.cpp, a calendar time whose fields are integers with -1 for an
--    unset one: its packed form of 32 bits (WowEncodeTime, WowDecodeTime), its clock
--    (GetHourAndMinutes, SetHourAndMinutes) and AddDays. The calendar functions mktime and localtime
--    are a parameter, CLibrary.
--  Time/GameTime: src/util/time/CGameTime.cpp, the game clock: GameTimeSetTime, TickMinute,
--    GameTimeUpdate and GameTimeSetMinutesPerSecond. It holds a WowTime and ticks it minute by minute.
--    Floats are a parameter, Float, with the laws that a proof uses in FloatLaws.
--  Event/OsQueue: src/event/Input.cpp, the ring of input events: OsQueueGet, OsQueuePut and
--    OsQueueSetParam on s_queue, s_queueHead and s_queueTail.
--  Event/Input: src/event/Input.cpp, what is posted for an input event: ProcessInput and the functions
--    PostKeyDown, PostMouseUp and so on, with s_buttonState, s_metaKeyState, s_mouseMode and
--    s_mouseHoldButton. Event/Input/Process is the loop IEvtInputProcess, which takes the events from
--    the ring with the OsInputGet of src/event/mac/Input.cpp. The OsInputGet of the other systems takes
--    them from the system's own queue, or takes none.
--  Net/SendNode: src/net/connection/WowConnection.cpp, the constructor of SENDNODE, which puts the
--    header before a message.
--  Net/MessageReads: the same file, DoMessageReads: the loop that reads messages from a socket into a
--    growing buffer. Net/Socket is the socket, as the sequence of what recv finds; it is what the
--    operating system does, not code of the repository. The cipher SARC4 is a parameter, Cipher, whose
--    laws (CipherLaws) are that it maps bytes to as many bytes.
--  Net/Connection: the same file, the states of a client's connection, with its socket and its references:
--    StartConnect, Disconnect, CheckConnect, DoWrites, DoExceptions, DoStreamReads, the calls that
--    DoMessageReads makes, and DoDisconnect, as WowConnectionNet::Service and the owner call them. What the
--    system's calls find and what the owner does when it is called (StartConnect, Disconnect, Release) are
--    arguments, so that the calls in the midst of a step are part of the sequence.
--  Object/DataStore: CDataStore, the messages, which is code of the empty submodule lib/common: an
--    interface of the calls that are used, and the laws DataStoreLaws of reading.
--    Object/DataStore/Reads and Places are how far reads move the place in a message.
--  Object/Guid: src/util/guid/SmartGUID.cpp, reading a packed GUID.
--  Object/Movement, Object/Spline: CMovementStatus.cpp and CMoveSpline.cpp of src/object/movement,
--    src/util/C3Spline.cpp, src/util/DataStore.cpp and src/object/client/CClientMoveUpdate.cpp: reading
--    and skipping the movement of an object. Object/Create is src/object/client/CClientObjCreate.cpp,
--    what a message says of a new object.
--  Object/Types, Object/Fields, Object/ClientObject: src/object/Types.hpp; CGObject.cpp, CGItem.cpp and
--    the others of src/object/client that say how many fields each class has; and CGObject_C.cpp, an
--    object with its storage, its type and its flags.
--  Object/Mirror: src/object/client/Mirror.cpp: the masks of a message, and the loops that write the
--    fields of an object (FillInPartialObjectData), mirror them (CallMirrorHandlers, for the object
--    that was looked up) and skip them (SkipPartialObjectUpdate). An access out of an array is none.
--  Object/Storage: the sizes s_objTotalSize and ClntObjMgrAllocObject of src/object/client/ObjMgr.cpp, and
--    SetupObjectStorage of MessageHandlers.cpp. The sizes of the classes are a
--    parameter. Object/Storage/New is the part of CreateObject that fills in the fields of a new object.
--  Object/Manager: src/object/client/Util.cpp, with ClntObjMgrLinkInNewObject and ClntObjMgrObjectPtr of
--    ObjMgr.cpp and OnObjectDestroy of MessageHandlers.cpp: the table of the active objects, that of the
--    disabled ones, and the lists. The hash table and the lists of storm, a submodule that is empty, are
--    the interface Storm with the laws StormLaws; an object is its address on a heap. Manager/Entry is what
--    the manager has under a GUID: the table, the address, the flags and the lists.
--  Object/Update: src/object/client/MessageHandlers.cpp, the sets of objects in a message
--    (SkipSetOfObjects, UpdateInRangeObjects, UpdateOutOfRangeObjects), a partial update (UpdateObject, and
--    CallMirrorHandlers of Mirror.cpp) and the end of the second pass. It joins the messages, the GUIDs,
--    the mirror and the manager.
--  Event/Queue: src/event/Queue.cpp, the handlers of a context's events (IEvtQueueRegister,
--    IEvtQueueUnregister, IEvtQueueDispatch)
--    and the keys and buttons that are down (UpdateSyncState, IEvtQueueCheckSyncKeyState). The lists of
--    storm are the interface ExplicitList with the laws ListLaws; handlers are the parameter call, whose
--    world is all that is outside of the queue.
--  Font/QuotedCode: src/gx/font/GxuFont.cpp, GxuDetermineQuotedCode: the code that a text starts with, such
--    as a color or a link. SUniSGetUTF8 of storm and MakeARGB of tempest are the interface TextLibrary.
--  Ui/EditBox: src/ui/simple/CSimpleEditBox.cpp, the text of an edit box in its buffers: UpdateTextInfo,
--    GrowText, Insert, PrevCharOffset and SetCursorPosition. It reads the codes of its text with
--    Font/QuotedCode. A place out of a buffer is none; SMemReAlloc is the interface Memory. A copy whose
--    two parts overlap, which is not defined, is none, too. What the code leaves to do (the limits of the
--    length, DeleteHighlight) does nothing there, as in the code.
--
-- Unsigned and masked integers are native numbers with their wrap-around written out; other integers
-- are the ℤ of Base/Int, which does not overflow. Loops run on fuel: 32 rounds for OsQueueSetParam,
-- one more than the waiting events for IEvtInputProcess, one more than the bytes to come for
-- DoMessageReads, one more than the minutes to add for GameTimeUpdate, and one more than the reenabled
-- objects for the end of the second pass; as many as the bytes of a text for the codes and for the
-- tests of an edit box; and any number above the handlers and the keys for the queue; theorems show
-- that these are enough. The loops of Mirror and of the sets of objects run on the number of blocks or
-- GUIDs, which the code fixes before.
--
-- Not modelled: what the handlers of an event do, deleting from an edit box and walking over its
-- characters, the creation of objects and the dispatch of the two passes over an update message, what
-- freeing an object does, the locks, accepting a connection, the send queue, and the parts of the
-- program that only draw, play, print or call a library. The code under lib and vendor is that of
-- other projects.
pub mod Base
pub mod Time
pub mod Event
pub mod Net
pub mod Object
pub mod Font
pub mod Ui
